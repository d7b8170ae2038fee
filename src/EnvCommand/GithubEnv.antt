-- ===== src/EnvCommand/GithubEnv.antt =====
-- The output of `appendGithubEnv` in cli/cmd/canton-localnet/env.go, as the runner reads it.
use mathlib.Core.List.{append_assoc, append-nil}
use canton_localnet.Base.{
  ℕ, ◌≡◌, refl, sym, ap, ◌∙◌, Bool, true, false, ◌||◌, Text, List, [], ◌∷◌, ◌++◌, Option, some,
  Result, ok, err, any, any-append, split, split_step, split-append, split-cons, cut, cut_prefix,
  join, equal_iff, is_empty, ◌==◌, arith, All, map,
}
use canton_localnet.EnvCommand.{EnvVar}
use canton_localnet.EnvCommand.Heredoc.{
  DelimiterError, append_github_env, heredocs, collides, try_delimiter-Chosen, github_env_delimiter,
  delimiter_prefix,
}
use canton_localnet.EnvCommand.Injection.{
  Vars, idle, body, idle_line, read_lines, read_github_env, NoLine, lines-ne,
}

split-append_text :
    (s rest : Text) → split b'\n' (s ++ (b'\n' ∷ rest)) ≡ split b'\n' s ++ split b'\n' rest
unfolding split
split-append_text [] rest = refl
split-append_text (c ∷ s) rest =
    rw (split-append_text s rest) (step (c == b'\n') (split b'\n' s) (split-cons b'\n' s))
  where
    step :
        (e : Bool) (parts : List Text)
        → (p : Text) × (ps : List Text) × (parts ≡ p ∷ ps)
        → split_step e c (parts ++ split b'\n' rest) ≡ split_step e c parts ++ split b'\n' rest
    step true parts (p, ps, q) = refl
    step false parts (p, ps, q) = rw q refl

join-split : (s : Text) → join (b'\n' ∷ []) (split b'\n' s) ≡ s
unfolding join split
join-split [] = refl
join-split (c ∷ s) =
    let (p, ps, e) = split-cons b'\n' s in
    rw e (step (c == b'\n') p ps refl ∙ ap (λ t. c ∷ t) (rw e at (join-split s)))
  where
    step :
        (b : Bool) (p : Text) (ps : List Text)
        → (c == b'\n') ≡ b
        → join (b'\n' ∷ []) (split_step b c (p ∷ ps)) ≡ c ∷ join (b'\n' ∷ []) (p ∷ ps)
    step true p ps h = ground arith
    step false p [] h = refl
    step false p (q ∷ ps) h = refl

read_lines-body :
    (k d : Text) (lines acc rest : List Text) (out : Vars)
    → NoLine d lines
    → read_lines (body k d acc) out (lines ++ (d ∷ rest))
      ≡ read_lines idle (out ++ (k, join (b'\n' ∷ []) (acc ++ lines)) ∷ []) rest
unfolding read_lines NoLine
read_lines-body k d [] acc rest out h = ground (arith, equal_iff d d, append-nil acc)
read_lines-body k d (line ∷ lines) acc rest out h = ground (
  arith,
  read_lines-body k d lines (acc ++ line ∷ []) rest out h.1,
  append_assoc acc (line ∷ []) lines,
)

-- A key holds no equals sign, no `<` and no newline.
abbrev pub IsKey : Text → Type 0
IsKey key = any (λ c. c == b'=' || c == b'<' || c == b'\n') key ≡ false

cut-key :
    (key d : Text) → IsKey key → cut (key ++ (b'<' ∷ b'<' ∷ d)) (b'<' ∷ b'<' ∷ []) ≡ some (key, d)
unfolding cut any cut_prefix
cut-key [] d h = refl
cut-key (c ∷ key) d h = ground (arith, cut-key key d)

not_empty : (key d : Text) → is_empty (key ++ (b'<' ∷ b'<' ∷ d)) ≡ false
not_empty [] d = refl
not_empty (c ∷ key) d = refl

no_equals : (key : Text) → IsKey key → any (λ c. c == b'=') key ≡ false
unfolding any
no_equals [] h = refl
no_equals (c ∷ key) h = ground (arith, no_equals key)

no_newline : (key : Text) → IsKey key → any (λ c. c == b'\n') key ≡ false
unfolding any
no_newline [] h = refl
no_newline (c ∷ key) h = ground (arith, no_newline key)

read_lines-header :
    (key d : Text) (rest : List Text) (out : Vars)
    → IsKey key
    → read_lines idle out ((key ++ (b'<' ∷ b'<' ∷ d)) ∷ rest) ≡ read_lines (body key d []) out rest
unfolding read_lines idle_line
read_lines-header key d rest out h =
    rw (cut-key key d h, not_empty key d, no_equals key h, read_lines) refl

-- The lines of one variable's heredoc.
split-heredocs :
    (d : Text) (v : EnvVar) (vars : List EnvVar)
    → IsKey v.key
    → any (λ c. c == b'\n') d ≡ false
    → split b'\n' (heredocs d (v ∷ vars))
      ≡ (v.key ++ (b'<' ∷ b'<' ∷ d)) ∷ (split b'\n' v.value ++ (d ∷ split b'\n' (heredocs d vars)))
split-heredocs d v vars hk hd =
    opened
    ∙ ap (split b'\n') (sym (append_assoc v.key (b'<' ∷ b'<' ∷ d) (b'\n' ∷ values)))
    ∙ split-append b'\n' (v.key ++ (b'<' ∷ b'<' ∷ d)) values free
    ∙ ap (λ lines. (v.key ++ (b'<' ∷ b'<' ∷ d)) ∷ lines)
        (split-append_text v.value (d ++ (b'\n' ∷ heredocs d vars))
          ∙ ap (λ lines. split b'\n' v.value ++ lines) (split-append b'\n' d (heredocs d vars) hd))
  where
    values : Text
    values = v.value ++ (b'\n' ∷ (d ++ (b'\n' ∷ heredocs d vars)))

    opened :
        split b'\n' (heredocs d (v ∷ vars))
        ≡ split b'\n' (v.key ++ (b'<' ∷ b'<' ∷ (d ++ (b'\n' ∷ values))))
    opened = unfold heredocs in refl

    free : any (λ c. c == b'\n') (v.key ++ (b'<' ∷ b'<' ∷ d)) ≡ false
    free = rw (any-append, no_newline v.key hk) (unfold any in hd)

abbrev pub public : EnvVar → Text × Text
public v = (v.key, v.value)

read_lines-heredocs :
    (d : Text) (vars : List EnvVar) (out : Vars)
    → is_empty d ≡ false
    → any (λ c. c == b'\n') d ≡ false
    → collides vars d ≡ false
    → All (λ v. IsKey v.key) vars
    → read_lines idle out (split b'\n' (heredocs d vars)) ≡ some (out ++ map public vars)
read_lines-heredocs d [] out ne hd hc hk =
    unfold read_lines idle_line heredocs split in rw append-nil
read_lines-heredocs d (v ∷ vars) out ne hd hc hk =
    ap (read_lines idle out) (split-heredocs d v vars hk.0 hd)
    ∙ read_lines-header v.key d _ out hk.0
    ∙ read_lines-body v.key d (split b'\n' v.value) [] _ out
        (lines-ne v.value d ne (unfold collides in ground arith))
    ∙ ap (λ s. read_lines idle (out ++ (v.key, s) ∷ []) (split b'\n' (heredocs d vars)))
        (join-split v.value)
    ∙ read_lines-heredocs d vars (out ++ public v ∷ []) ne hd (unfold collides in ground arith) hk.1
    ∙ ap some (append_assoc out (public v ∷ []) (map public vars))

prefix_lem :
    (suffix : Text)
    → any (λ c. c == b'\n') suffix ≡ false
    → (is_empty (delimiter_prefix ++ suffix) ≡ false)
      × (any (λ c. c == b'\n') (delimiter_prefix ++ suffix) ≡ false)
prefix_lem suffix h =
    (unfold delimiter_prefix in refl, rw (any-append, h) (unfold delimiter_prefix any in refl))

-- If the `github` format writes $GITHUB_ENV at all, the runner reads back every variable of the
-- snapshot, in order and with exactly its value, and no other: no value can close its heredoc and
-- set a variable of its own. The keys hold no `=`, `<` or newline, and the drawn suffixes no newline.
pub read_github_env-append_github_env :
    (draw : ℕ → Option Text) (vars : List EnvVar) (text : Text)
    → ((n : ℕ) (suffix : Text) → draw n ≡ some suffix → any (λ c. c == b'\n') suffix ≡ false)
    → All (λ v. IsKey v.key) vars
    → append_github_env draw vars ≡ ok text
    → read_github_env text ≡ some (map public vars)
unfolding read_github_env append_github_env
read_github_env-append_github_env draw vars text free keys h =
    written (github_env_delimiter draw vars) refl h
  where
    written :
        (r : Result DelimiterError Text)
        → github_env_delimiter draw vars ≡ r
        → (elim r as (λ _. Result DelimiterError Text) [
          | err e ↦ err e
          | ok d ↦ ok (heredocs d vars)
        ])
          ≡ ok text
        → read_lines idle [] (split b'\n' text) ≡ some (map public vars)
    written (err e) g q = cc
    written (ok d) g q =
        let (c, (n, suffix, e, made)) =
          try_delimiter-Chosen draw vars 8 0 {d = d} (unfold github_env_delimiter in g) in
        let (ne, hd) = prefix_lem suffix (free n suffix e) in
        let same : heredocs d vars ≡ text = ground arith in
        ap (λ t. read_lines idle [] (split b'\n' t)) (sym same)
        ∙ read_lines-heredocs d vars [] (rw made ne) (rw made hd) c keys
