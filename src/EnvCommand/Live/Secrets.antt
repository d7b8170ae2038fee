-- ===== src/EnvCommand/Live/Secrets.antt =====
-- The secrets of the first pass of `resolveEnvVars`, masked before every call:
-- cli/cmd/canton-localnet/env.go.
use canton_localnet.Base.{
  ◌≡◌, refl, sym, ap, ◌∙◌, Bool, true, false, ◌||◌, List, [], ◌∷◌, ◌++◌, some, Result, ok, err,
  arith, Has, inl, inr, Bool-cases, subst, none_in,
}
use canton_localnet.Slot.Resolve.{Endpoints}
use canton_localnet.Slot.Api.{Request}
use canton_localnet.EnvCommand.{EnvVar}
use canton_localnet.EnvCommand.Snapshot.{EnvOptions}
use canton_localnet.EnvCommand.Prepare.{EnvError}
use canton_localnet.EnvCommand.Live.{
  Event, masked, after, done, World, mask, mask_if, mask_secrets, live_pass, report_and_call, ◌>>=◌,
}
use canton_localnet.EnvCommand.Live.Keeps.{
  Before, Keeps, after-Keeps, mask_secrets-Keeps, live_pass-Keeps, live_slot-Keeps,
}

-- The secrets of a list are masked.
abbrev pub IsMasked : List EnvVar → List Event → Type 0
IsMasked vars t = (v : EnvVar) → Has v vars → v.secret ≡ true → Has (masked v) t

pub mask_if-masked :
    (E : Type 0) (report : EnvVar → Bool) (v : EnvVar) (b : Bool) (t u : List Event)
    → b ≡ true
    → mask_if {E = E} b (some report) v t ≡ (ok tt, u)
    → Has (masked v) u
unfolding mask_if mask
mask_if-masked E report v false t u q h = cc
mask_if-masked E report v true t u q h = elim (Bool-cases (report v)) [
  | inl e ↦ rw (sym (ap (λ r. r.1) (rw e at h))) (inl refl)
  | inr e ↦ absurd (ground (arith, h))
]

-- A loop of masks that ends well has masked every secret.
mask_secrets-masked :
    (E : Type 0) (report : EnvVar → Bool) (vars : List EnvVar) (t u : List Event)
    → mask_secrets {E = E} (some report) vars t ≡ (ok tt, u)
    → (v : EnvVar) → Has v vars
    → v.secret ≡ true
    → Has (masked v) u
unfolding mask_secrets
mask_secrets-masked E report [] t u e v h s = absurd (none_in h)
mask_secrets-masked E report (x ∷ vars) t u e v h s =
    step (mask_if x.secret (some report) x t) refl e
      (λ t' q m. mask_secrets-masked E report vars t' u q v m s)
  where
    kept :
        (t' : List Event)
        → Has (masked v) t'
        → Has (masked v) (mask_secrets {E = E} (some report) vars t').1
    kept = mask_secrets-Keeps E (Has (masked v)) (λ _ _ q. inr q) (some report) vars

    step :
        (r : Result (EnvError E) (Unit {0}) × List Event)
        → mask_if {E = E} x.secret (some report) x t ≡ r
        → after r (λ _. mask_secrets {E = E} (some report) vars) ≡ (ok tt, u)
        → ((t' : List Event)
            → mask_secrets {E = E} (some report) vars t' ≡ (ok tt, u)
            → Has v vars
            → Has (masked v) u)
        → Has (masked v) u
    step (err f, t') k q rest = cc
    step (ok tt, t') k q rest = elim h [
      | inl i ↦ subst (Has (masked v)) (ap (λ r. r.1) q) (
          kept t' (
            subst (λ y. Has (masked y) t') (sym i)
              (mask_if-masked E report x x.secret t t' (ap (λ y. y.secret) (sym i) ∙ s) k)))
      | inr m ↦ rest t' q m
    ]

-- The secrets of `vars` are masked, and were before every call.
abbrev Ready : List EnvVar → List Event → Type 0
Ready vars t = IsMasked vars t × Before (λ u r. IsMasked vars u) t

pub secrets-Before :
    (E : Type 0) (w : World) (report : EnvVar → Bool)
    → w.on_secret ≡ some report
    → (opts : EnvOptions) (eps : List Endpoints) (vars : List EnvVar)
    → Before (λ t r. IsMasked vars t) (report_and_call {E = E} w opts eps vars []).1
unfolding report_and_call
secrets-Before E w report masks opts eps vars = step (mask_secrets w.on_secret vars []) refl
  where
    P : List Event → Request → Type 0
    P u r = IsMasked vars u

    unmasked : Before P (mask_secrets {E = E} w.on_secret vars []).1
    unmasked = mask_secrets-Keeps E (Before P) (λ _ _ q. q) w.on_secret vars [] tt

    live : Keeps (Ready vars) (live_pass {E = E} w (opts.jwt || opts.party) opts eps)
    live =
        live_pass-Keeps E w (Ready vars) opts
          (live_slot-Keeps E w (Ready vars) (λ v u q. (λ x h s. inr (q.0 x h s), q.1))
            (λ r u q. (λ x h s. inr (q.0 x h s), q)) opts)
          (opts.jwt || opts.party) eps

    step :
        (r : Result (EnvError E) (Unit {0}) × List Event)
        → mask_secrets {E = E} w.on_secret vars [] ≡ r
        → Before P
            (after r (λ _.
              live_pass w (opts.jwt || opts.party) opts eps >>= λ more. done (vars ++ more))).1
    step (err f, t) k = subst (Before P) (ap (λ r. r.1) k) unmasked
    step (ok tt, t) k =
        (after-Keeps E (Ready vars) (live_pass w (opts.jwt || opts.party) opts eps t)
          (λ more. done (vars ++ more))
          (live t (
            mask_secrets-masked E report vars [] t
                (subst (λ o. mask_secrets {E = E} o vars [] ≡ (ok tt, t)) masks k),
            subst (Before P) (ap (λ r. r.1) k) unmasked,
          ))
          (λ _ u q. q)).1
