-- ===== src/Launch/Registration/Csv.antt =====
-- The list of endpoints in SEATA_ETCD_ENDPOINTS (`main` of seata-server/src/main.rs).
use seata.Base.{
  ◌==◌, ◌≡◌, refl, ◌∙◌, true, false, not, List, [], ◌∷◌, ◌++◌, map, Text, is_empty, All, all, keep,
  arith,
}
use seata.Launch.Registration.{split_comma, trim, endpoints_of}

abbrev pub join_comma : List Text → Text
join_comma [] = []
join_comma (e ∷ []) = e
join_comma (e ∷ f ∷ es) = e ++ b',' ∷ join_comma (f ∷ es)

-- Neither empty nor with a comma in it, nor with white space at its ends.
abbrev pub IsClean : Text → Type 0
IsClean e = (is_empty e ≡ false) × (all (λ c. not (c == b',')) e ≡ true) × (trim e ≡ e)

split_one : (e : Text) → all (λ c. not (c == b',')) e ≡ true → split_comma e ≡ (e, [])
unfolding split_comma
split_one [] h = refl
split_one (c ∷ e) h = ground (arith, split_one e)

split_more :
    (e t : Text)
    → all (λ c. not (c == b',')) e ≡ true
    → split_comma (e ++ b',' ∷ t) ≡ (e, (split_comma t).0 ∷ (split_comma t).1)
unfolding split_comma
split_more [] t h = refl
split_more (c ∷ e) t h = ground (arith, split_more e t)

split_joined :
    (e : Text) (es : List Text) → All IsClean (e ∷ es) → split_comma (join_comma (e ∷ es)) ≡ (e, es)
split_joined e [] h = split_one e h.0.1
split_joined e (f ∷ es) h = split_more e (join_comma (f ∷ es)) h.0.1 ∙ rw (split_joined f es h.1)

kept : (es : List Text) → All IsClean es → keep (λ s. not (is_empty s)) (map trim es) ≡ es
kept [] h = refl
kept (e ∷ es) h = rw (h.0.2, h.0.0, kept es h.1)

-- Endpoints that are joined by commas are read as they were, if none of them is empty, has a comma
-- in it, or begins or ends with white space.
pub endpoints_of-join :
    (e : Text) (es : List Text) → All IsClean (e ∷ es) → endpoints_of (join_comma (e ∷ es)) ≡ e ∷ es
unfolding endpoints_of
endpoints_of-join e es h = rw (split_joined e es h) (kept (e ∷ es) h)
