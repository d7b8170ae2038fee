-- ===== src/Rights/Decode.antt =====
-- Reading the participant's documents: `UnmarshalJSON`, `MarshalJSON` and `partyOf`.
use canton_localnet.Base.{
  ℕ, ◌≡◌, ◌≢◌, refl, ap, ◌∙◌, Text, lit, equal, equal_iff, List, [], ◌∷◌, Option, none, some,
  is_empty, length, Result, ok, err, ◌>>=◌, if◌then◌else◌, arith,
}
use canton_localnet.Rights.{Right, act_as_kind}
use canton_localnet.Rights.Json.{Value, get, as_string, as_map, as_slice}

pub data DecodeError : Type 0 where
  malformed : DecodeError
  not_one_kind : ℕ → DecodeError
  no_act_as_party : DecodeError

-- `partyOf`; `none` for its error.
unfoldable pub party_of : Value → Option Text
unfolding get as_string lit
party_of body = elim (get (lit "value") body) [
  | none ↦ none
  | some value ↦ elim (get (lit "party") value) [
    | none ↦ none
    | some v ↦ elim (as_string v) [
      | none ↦ none
      | some party ↦ if is_empty party then none else some party
    ]
  ]
]

-- The body of the loop over the one entry of the map.
unfoldable pub decode_kind : Value → Text → Option Text → Result DecodeError Right
decode_kind raw kind none =
    if equal kind act_as_kind
    then err no_act_as_party
    else ok (record { raw = raw; kind = kind; party = [] })
decode_kind raw kind (some party) = ok (record { raw = raw; kind = kind; party = party })

unfoldable pub decode_kinds : Value → List (Text × Value) → Result DecodeError Right
unfolding decode_kind
decode_kinds raw ((kind, body) ∷ []) = decode_kind raw kind (party_of body)
decode_kinds raw kinds = err (not_one_kind (length kinds))

unfoldable pub decode_map : Value → Option (List (Text × Value)) → Result DecodeError Right
unfolding decode_kinds
decode_map raw none = err malformed
decode_map raw (some kinds) = decode_kinds raw kinds

unfoldable pub decode_envelope : Value → Option Value → Result DecodeError Right
unfolding decode_map as_map
decode_envelope raw none = err malformed
decode_envelope raw (some v) = decode_map raw (as_map v)

unfoldable pub unmarshal_right : Value → Result DecodeError Right
unfolding get lit decode_envelope
unmarshal_right raw = decode_envelope raw (get (lit "kind") raw)

-- A right is encoded as the document that it was decoded from. Every `Right` of the model has this
-- document, so it stands for the decoded ones, on which `MarshalJSON` has no error.
unfoldable pub marshal_right : Right → Value
marshal_right r = r.raw

-- A list of rights is decoded up to the first that fails.
unfoldable pub unmarshal_all : List Value → Result DecodeError (List Right)
unmarshal_all [] = ok []
unmarshal_all (v ∷ vs) = do r ← unmarshal_right v; rs ← unmarshal_all vs; ok (r ∷ rs)

unfoldable pub unmarshal_list : Text → Value → Result DecodeError (List Right)
unfolding get as_slice unmarshal_all
unmarshal_list key body = elim (get key body) [
  | none ↦ err malformed
  | some v ↦ elim (as_slice v) [ none ↦ err malformed | some vs ↦ unmarshal_all vs ]
]

party_of-ne_nil : (v : Value) {p : Text} → party_of v ≡ some p → p ≢ []
unfolding party_of
party_of-ne_nil v h e = ground arith

decode_kind-Scoped :
    (raw : Value) (kind : Text) (p : Option Text) {r : Right}
    → ((q : Text) → p ≡ some q → q ≢ [])
    → decode_kind raw kind p ≡ ok r
    → (r.raw ≡ raw) × (r.kind ≡ act_as_kind → r.party ≢ [])
unfolding decode_kind
decode_kind-Scoped raw kind none n h =
    (ground arith, λ e f. ground (arith, equal_iff kind act_as_kind))
decode_kind-Scoped raw kind (some q) n h = (ground arith, λ e f. n q refl (ground arith))

decode_kinds-Scoped :
    (raw : Value) (kinds : List (Text × Value)) {r : Right}
    → decode_kinds raw kinds ≡ ok r
    → (r.raw ≡ raw) × (r.kind ≡ act_as_kind → r.party ≢ [])
unfolding decode_kinds
decode_kinds-Scoped raw [] h = cc
decode_kinds-Scoped raw ((kind, body) ∷ []) h =
    decode_kind-Scoped raw kind (party_of body) (λ q e. party_of-ne_nil body e) h
decode_kinds-Scoped raw (x ∷ y ∷ kinds) h = cc

abbrev Scoped : Value → Right → Type 0
Scoped raw r = (r.raw ≡ raw) × (r.kind ≡ act_as_kind → r.party ≢ [])

decode_map-Scoped :
    (raw : Value) (kinds : Option (List (Text × Value))) {r : Right}
    → decode_map raw kinds ≡ ok r
    → Scoped raw r
unfolding decode_map
decode_map-Scoped raw none h = cc
decode_map-Scoped raw (some kinds) h = decode_kinds-Scoped raw kinds h

decode_envelope-Scoped :
    (raw : Value) (v : Option Value) {r : Right} → decode_envelope raw v ≡ ok r → Scoped raw r
unfolding decode_envelope
decode_envelope-Scoped raw none h = cc
decode_envelope-Scoped raw (some v) h = decode_map-Scoped raw (as_map v) h

unmarshal_right-Scoped : (v : Value) {r : Right} → unmarshal_right v ≡ ok r → Scoped v r
unfolding unmarshal_right
unmarshal_right-Scoped v h = decode_envelope-Scoped v (get (lit "kind") v) h

-- A right that was decoded is sent back as the very document that the participant served, which
-- decodes to the same right, and an act-as right that was decoded names its party.
pub unmarshal_right-marshal_right :
    (v : Value) {r : Right}
    → unmarshal_right v ≡ ok r
    → (marshal_right r ≡ v)
      × (unmarshal_right (marshal_right r) ≡ ok r)
      × (r.kind ≡ act_as_kind → r.party ≢ [])
unfolding marshal_right
unmarshal_right-marshal_right v h =
    let (e, n) = unmarshal_right-Scoped v h in (e, ap unmarshal_right e ∙ h, n)
