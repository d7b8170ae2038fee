-- ===== src/Config/Discover/Nearest.antt =====
-- Where the walk of `FindRoot` stops: cli/internal/repo/repo.go.
use canton_localnet.Base.{
  subst, >>=-eq_ok, ok-injective, ◌⊎◌, inl, inr, ◌≡◌, refl, sym, ap, ◌∙◌, ◌↔◌, Text, List, [], ◌∷◌,
  ◌++◌, arith, ok, Option, some,
}
use canton_localnet.Base.Files.{Stat, missing, failed, file, dir}
use canton_localnet.Config.Discover.{
  Turn, found, broken, higher, End, found_at, broken_at, exhausted, stop, climb, find_root,
  root_found, root_text, root_turn, root_candidate, absolute_of,
}

-- The walk passes each directory above the names, up to the one it stops at.
abbrev pub Passed : (List Text → Turn) → List Text → List Text → Type 0
Passed turn d [] = Unit
Passed turn d (name ∷ below) = (turn (name ∷ below ++ d) ≡ higher) × Passed turn d below

climb-Passed :
    (turn : List Text → Turn) (d below : List Text)
    → Passed turn d below
    → turn d ≡ found
    → climb turn (below ++ d) ≡ found_at d
unfolding climb stop
climb-Passed turn [] [] p h = rw h refl
climb-Passed turn (x ∷ d) [] p h = rw h refl
climb-Passed turn d (name ∷ below) (u, p) h = rw u (climb-Passed turn d below p h)

stop-found :
    (t : Turn) (at d : List Text) (above : End)
    → stop t at above ≡ found_at d
    → ((t ≡ found) × (at ≡ d)) ⊎ ((t ≡ higher) × (above ≡ found_at d))
unfolding stop
stop-found found at d above h = inl (refl, cc)
stop-found broken at d above h = cc
stop-found higher at d above h = inr (refl, h)

Passed-climb :
    (turn : List Text → Turn) (at d : List Text)
    → climb turn at ≡ found_at d
    → (below : List Text) × (at ≡ below ++ d) × Passed turn d below × (turn d ≡ found)
unfolding climb
Passed-climb turn [] d h = elim (stop-found (turn []) [] d exhausted h) [
  | inl (t, e) ↦ ([], e, tt, subst (λ r. turn r ≡ found) e t)
  | inr (_, e) ↦ cc
]
Passed-climb turn (name ∷ parents) d h =
    elim (stop-found (turn (name ∷ parents)) (name ∷ parents) d (climb turn parents) h) [
      | inl (t, e) ↦ ([], e, tt, subst (λ r. turn r ≡ found) e t)
      | inr (u, e) ↦
          let (below, q, p, t) = Passed-climb turn parents d e in
          (name ∷ below, ap (λ r. name ∷ r) q, (subst (λ r. turn (name ∷ r) ≡ higher) q u, p), t)
    ]

root_found-ok :
    (e : End) (path : Text)
    → root_found e ≡ ok path
    → (d : List Text) × (e ≡ found_at d) × (path ≡ root_text d)
unfolding root_found
root_found-ok (found_at d) path h = (d, refl, sym (ok-injective _ path h))
root_found-ok (broken_at d) path h = cc
root_found-ok exhausted path h = cc

root_turn-found : (s : Stat) → (root_turn s ≡ found) ↔ (s ≡ dir)
unfolding root_turn
root_turn-found s = ground arith

abbrev pub look_root : (Text → Stat) → List Text → Turn
look_root stat d = root_turn (stat (root_candidate d))

-- At each directory above the names, up to the given one, compose/modules is missing or is no
-- directory, and could be examined.
abbrev pub Bare : (Text → Stat) → List Text → List Text → Type 0
Bare stat d [] = Unit
Bare stat d (name ∷ below) =
    ((stat (root_candidate (name ∷ below ++ d)) ≡ missing)
      ⊎ (stat (root_candidate (name ∷ below ++ d)) ≡ file))
    × Bare stat d below

root_turn-higher : (s : Stat) → (root_turn s ≡ higher) ↔ ((s ≡ missing) ⊎ (s ≡ file))
unfolding root_turn
root_turn-higher missing = (λ h. inl refl, λ h. refl)
root_turn-higher file = (λ h. inr refl, λ h. refl)
root_turn-higher failed = (λ h. cc, λ h. elim h [ inl e ↦ cc | inr e ↦ cc ])
root_turn-higher dir = (λ h. cc, λ h. elim h [ inl e ↦ cc | inr e ↦ cc ])

Passed-Bare :
    (stat : Text → Stat) (d below : List Text) → Passed (look_root stat) d below ↔ Bare stat d below
Passed-Bare stat d [] = (λ p. p, λ p. p)
Passed-Bare stat d (name ∷ below) =
    let (to, from) = root_turn-higher (stat (root_candidate (name ∷ below ++ d))) in
    let (down, up) = Passed-Bare stat d below in
    (λ (u, p). (to u, down p), λ (u, p). (from u, up p))

-- `FindRoot` returns a path exactly if the start is a directory below it or the same, with
-- compose/modules a directory in it, and at each directory nearer to the start compose/modules could
-- be examined and was missing or no directory.
pub find_root_iff :
    (absolute : Text → Option (List Text)) (stat : Text → Stat) (start path : Text)
    → (find_root absolute stat start ≡ ok path) ↔ (
        (d : List Text) × (below : List Text) × (absolute start ≡ some (below ++ d))
        × (path ≡ root_text d)
        × (stat (root_candidate d) ≡ dir)
        × Bare stat d below)
unfolding find_root
find_root_iff absolute stat start path = (forth, back)
  where
    absolute_of-ok :
        (at : List Text) → absolute_of absolute start ≡ ok at → absolute start ≡ some at
    absolute_of-ok at h = unfold absolute_of in ground arith

    some-absolute_of :
        (at : List Text) → absolute start ≡ some at → absolute_of absolute start ≡ ok at
    some-absolute_of at h = unfold absolute_of in ground arith

    found_root : (d : List Text) → root_found (found_at d) ≡ ok (root_text d)
    found_root d = unfold root_found in refl

    forth :
        find_root absolute stat start ≡ ok path
        → (d : List Text) × (below : List Text) × (absolute start ≡ some (below ++ d))
          × (path ≡ root_text d)
          × (stat (root_candidate d) ≡ dir)
          × Bare stat d below
    forth h =
        let (at, a, r) = >>=-eq_ok (absolute_of absolute start) _ {b = path} h in
        let (d, c, e) = root_found-ok (climb (look_root stat) at) path r in
        let (below, q, p, t) = Passed-climb (look_root stat) at d c in
        (
          d,
          below,
          absolute_of-ok at a ∙ ap some q,
          e,
          (root_turn-found (stat (root_candidate d))).0 t,
          (Passed-Bare stat d below).0 p,
        )

    back :
        ((d : List Text) × (below : List Text) × (absolute start ≡ some (below ++ d))
          × (path ≡ root_text d)
          × (stat (root_candidate d) ≡ dir)
          × Bare stat d below)
        → find_root absolute stat start ≡ ok path
    back (d, below, a, e, t, p) =
        rw
          (
            some-absolute_of (below ++ d) a,
            climb-Passed (look_root stat) d below ((Passed-Bare stat d below).1 p)
                ((root_turn-found (stat (root_candidate d))).1 t),
            e,
          )
          (found_root d)
