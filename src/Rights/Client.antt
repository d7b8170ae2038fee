-- ===== src/Rights/Client.antt =====
-- The client of a participant's JSON Ledger API: cli/internal/rights/client.go. The participant
-- is a parameter that answers a request by the requests made so far, newest first, and every call
-- returns that history with its own requests added.
pub mod Confirmed
use canton_localnet.Base.{
  ℕ, ◌+◌, ◌||◌, not, Text, lit, List, [], ◌∷◌, Option, none, some, Result, ok, err, ltb, leb, ◌==◌,
  if◌then◌else◌, length,
}
use canton_localnet.Rights.{Right, identity_in}
use canton_localnet.Rights.Json.{Value, get, as_string}
use canton_localnet.Rights.Decode.{DecodeError, unmarshal_list}

-- `GET /v2/users/<id>`, `GET` and `PATCH /v2/users/<id>/rights`.
pub data Request : Type 0 where
  user_of : Text → Request
  rights_of : Text → Request
  revoke_of : Text → List Right → Request

-- A call that fails before its body is read, or a status with the document that the body
-- decodes to, if it is one.
pub data Reply : Type 0 where
  failed : Reply
  reply : ℕ → Option Value → Reply

abbrev pub History : Type 0
History = List Request

abbrev pub Participant : Type 0
Participant = History → Request → Reply

pub data ClientError : Type 0 where
  transport : ClientError
  http_status : ℕ → ClientError
  undecodable : ClientError
  unreadable_right : DecodeError → ClientError
  not_confirmed : ℕ → ℕ → ClientError

-- The checks of `Client.do` behind the call.
unfoldable pub read_reply : Reply → Result ClientError (Option Value)
read_reply failed = err transport
read_reply (reply status body) =
    if ltb status 200 || leb 300 status then err (http_status status) else ok body

unfoldable pub do_request : Participant → Request → History → Result ClientError (Option Value)
unfolding read_reply
do_request p request h = read_reply (p h request)

unfoldable pub decode_primary_party : Result ClientError (Option Value) → Result ClientError Text
unfolding get as_string lit
decode_primary_party (err e) = err e
decode_primary_party (ok none) = err undecodable
decode_primary_party (ok (some body)) = elim (get (lit "user") body) [
  | none ↦ err undecodable
  | some user ↦ elim (get (lit "primaryParty") user) [
    | none ↦ err undecodable
    | some v ↦ elim (as_string v) [ none ↦ err undecodable | some party ↦ ok party ]
  ]
]

-- `PrimaryParty`
unfoldable pub primary_party : Participant → Text → History → Result ClientError Text × History
unfolding do_request decode_primary_party
primary_party p user h = (decode_primary_party (do_request p (user_of user) h), user_of user ∷ h)

unfoldable pub decode_rights :
    Text → Result ClientError (Option Value) → Result ClientError (List Right)
unfolding unmarshal_list
decode_rights key (err e) = err e
decode_rights key (ok none) = err undecodable
decode_rights key (ok (some body)) = elim (unmarshal_list key body) [
  | err e ↦ err (unreadable_right e)
  | ok rights ↦ ok rights
]

-- `List`
unfoldable pub list_rights :
    Participant → Text → History → Result ClientError (List Right) × History
unfolding do_request decode_rights lit
list_rights p user h =
    (decode_rights (lit "rights") (do_request p (rights_of user) h), rights_of user ∷ h)

-- The loop that counts the requested rights among the confirmed ones.
unfoldable pub confirmed_count : List Right → List Right → ℕ
unfolding identity_in
confirmed_count confirmed [] = 0
confirmed_count confirmed (r ∷ rights) =
    (if identity_in confirmed r then 1 else 0) + confirmed_count confirmed rights

unfoldable pub check_revoked :
    List Right → Result ClientError (List Right) → Result ClientError (List Right)
unfolding confirmed_count
check_revoked rights (err e) = err e
check_revoked rights (ok newly) =
    if not (confirmed_count newly rights == length rights)
    then err (not_confirmed (confirmed_count newly rights) (length rights))
    else ok newly

-- `Revoke`
unfoldable pub revoke_rights :
    Participant → Text → List Right → History → Result ClientError (List Right) × History
unfolding do_request decode_rights check_revoked lit
revoke_rights p user rights h = (
  check_revoked rights
      (decode_rights (lit "newlyRevokedRights") (do_request p (revoke_of user rights) h)),
  revoke_of user rights ∷ h,
)
