-- ===== src/Barrier/Keys.antt =====
-- Which barriers share a key (`Barrier::key` of seata-server/src/barrier.rs).
use mathlib.Core.List.{append_assoc}
use seata.Base.{
  ◌≡◌, ◌≢◌, refl, sym, ap, ◌∙◌, false, [], ◌∷◌, ◌++◌, Text, bytes, any, append_cancel, ◌==◌, arith,
  ◌↔◌,
}
use seata.Domain.{BarrierPhase, try, confirm, cancel}
use seata.Barrier.{phase_name, key}

-- The text has no ':'.
abbrev pub IsColonFree : Text → Type 0
IsColonFree t = any (λ c. c == b':') t ≡ false

-- A colon-free text ends at the first colon.
split_first :
    (s t r u : Text)
    → IsColonFree s
    → IsColonFree t
    → s ++ b':' ∷ r ≡ t ++ b':' ∷ u
    → (s ≡ t) × (r ≡ u)
split_first [] [] r u hs ht e = (refl, cc)
split_first [] (b ∷ t) r u hs ht e = absurd (ground arith)
split_first (a ∷ s) [] r u hs ht e = absurd (ground arith)
split_first (a ∷ s) (b ∷ t) r u hs ht e =
    let (same, rest) = split_first s t r u (ground arith) (ground arith) (ground arith) in
    (ground arith, rest)

no_colon_inside : (n b m : Text) → IsColonFree n → n ≢ b ++ b':' ∷ m
no_colon_inside [] [] m h e = cc
no_colon_inside [] (c ∷ b) m h e = cc
no_colon_inside (a ∷ n) [] m h e = ground arith
no_colon_inside (a ∷ n) (c ∷ b) m h e = no_colon_inside n b m (ground arith) (ground arith)

-- A colon-free text begins behind the last colon.
split_last :
    (s t r u : Text)
    → IsColonFree r
    → IsColonFree u
    → s ++ b':' ∷ r ≡ t ++ b':' ∷ u
    → (s ≡ t) × (r ≡ u)
split_last [] [] r u hr hu e = (refl, cc)
split_last [] (b ∷ t) r u hr hu e = absurd (no_colon_inside r t u hr (ground arith))
split_last (a ∷ s) [] r u hr hu e = absurd (no_colon_inside u s r hu (sym (ground arith)))
split_last (a ∷ s) (b ∷ t) r u hr hu e =
    let (same, rest) = split_last s t r u hr hu (ground arith) in (ground arith, rest)

phase_name-IsColonFree : (p : BarrierPhase) → IsColonFree (phase_name p)
phase_name-IsColonFree try = refl
phase_name-IsColonFree confirm = refl
phase_name-IsColonFree cancel = refl

phase_name-injective : (p q : BarrierPhase) → phase_name p ≡ phase_name q → p ≡ q
phase_name-injective p q e = ground arith

-- The gid and the branch id, as the key joins them.
abbrev pub joined : Text → Text → Text
joined gid branch_id = gid ++ b':' ∷ branch_id

key-joined :
    (g b : Text) (p : BarrierPhase)
    → key g b p ≡ bytes "barrier:" ++ (joined g b ++ b':' ∷ phase_name p)
unfolding key
key-joined g b p =
    ap (λ r. bytes "barrier:" ++ r) (sym (append_assoc g (b':' ∷ b) (b':' ∷ phase_name p)))

-- Two barriers have one key exactly if they have the same phase and their gids and branch ids, joined
-- by a ':', are the same text: "a:b" and "c" join to the same as "a" and "b:c".
pub key_iff :
    (g h b c : Text) (p q : BarrierPhase)
    → (key g b p ≡ key h c q) ↔ ((joined g b ≡ joined h c) × (p ≡ q))
key_iff g h b c p q = (
  λ e.
      let joins : bytes "barrier:" ++ (joined g b ++ b':' ∷ phase_name p)
          ≡ bytes "barrier:" ++ (joined h c ++ b':' ∷ phase_name q) =
        sym (key-joined g b p) ∙ e ∙ key-joined h c q in
      let (same, same_phase) =
        split_last (joined g b) (joined h c) _ _ (phase_name-IsColonFree p)
          (phase_name-IsColonFree q) (append_cancel (bytes "barrier:") _ _ joins) in
      (same, phase_name-injective p q same_phase),
  λ e. rw (key-joined g b p, key-joined h c q, e.0, e.1),
)

-- Barriers whose gids have no ':' have one key exactly if they agree in gid, branch id and phase.
pub key-injective :
    (g h b c : Text) (p q : BarrierPhase)
    → IsColonFree g
    → IsColonFree h
    → (key g b p ≡ key h c q) ↔ ((g ≡ h) × (b ≡ c) × (p ≡ q))
key-injective g h b c p q hg hh = (
  λ e.
      let (same, same_phase) = (key_iff g h b c p q).0 e in
      let (same_gid, same_branch) = split_first g h b c hg hh same in
      (same_gid, same_branch, same_phase),
  λ e. rw (e.0, e.1, e.2),
)
