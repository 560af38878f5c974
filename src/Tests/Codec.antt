-- ===== src/Tests/Codec.antt =====
-- A serializer that can be evaluated, in the place of `serde_json`: every field as numbers, each
-- text and list behind its length.
use mathlib.Core.List.{append_assoc, append-nil}
use seata.Base.{
  ℕ, zero, suc, ◌≡◌, refl, sym, ap, ◌∙◌, Option, none, some, List, [], ◌∷◌, ◌++◌, Text, Bytes,
  length, Result, ok, err, bytes,
}
use seata.Domain.{
  GlobalStatus, submitted, aborting, aborted, committing, committed, BranchStatus, prepared,
  succeed, failed, BranchTxn, GlobalTxn, ℤ, pos, negsuc,
}
use seata.Repo.{Serde}

abbrev Parser : Type 0 → Type 0
Parser A = Bytes → Option (A × Bytes)

infixl 5 ◌>>=◌
abbrev ◌>>=◌ : {A B : Type 0} → Parser A → (A → Parser B) → Parser B
◌>>=◌ p f b = elim (p b) [ none ↦ none | some (a, b') ↦ f a b' ]

abbrev pure : {A : Type 0} → A → Parser A
pure a b = some (a, b)

-- `p` reads `a` from `e`, whatever follows.
abbrev Reads : {A : Type 0} → Parser A → A → Bytes → Type 0
Reads p a e = (rest : Bytes) → p (e ++ rest) ≡ some (a, rest)

-- One step of a `do` block.
step :
    {A B : Type 0} (p : Parser A) (f : A → Parser B) (a : A) (b b' : Bytes)
    → p b ≡ some (a, b')
    → (p >>= f) b ≡ f a b'
step p f a b b' h = rw (h, ◌>>=◌)

number : Parser ℕ
number [] = none
number (n ∷ b) = some (n, b)

Reads-number : (n : ℕ) → Reads number n (n ∷ [])
unfolding number
Reads-number n rest = refl

exactly : ℕ → Parser Text
exactly zero = pure []
exactly (suc n) = do c ← number; t ← exactly n; pure (c ∷ t)

Reads-exactly : (t : Text) → Reads (exactly (length t)) t t
unfolding exactly number
Reads-exactly [] rest = refl
Reads-exactly (c ∷ t) rest = rw (Reads-exactly t, ◌>>=◌)

encode_text : Text → Bytes
encode_text t = length t ∷ t

text : Parser Text
text = do n ← number; exactly n

Reads-text : (t : Text) → Reads text t (encode_text t)
unfolding text encode_text number
Reads-text t rest = Reads-exactly t rest

global_code : GlobalStatus → ℕ
global_code submitted = 0
global_code aborting = 1
global_code aborted = 2
global_code committing = 3
global_code committed = 4

global_of : ℕ → GlobalStatus
global_of zero = submitted
global_of (suc zero) = aborting
global_of (suc (suc zero)) = aborted
global_of (suc (suc (suc zero))) = committing
global_of (suc (suc (suc (suc n)))) = committed

global_of-code : (s : GlobalStatus) → global_of (global_code s) ≡ s
unfolding global_of global_code
global_of-code submitted = refl
global_of-code _ = refl

branch_code : BranchStatus → ℕ
branch_code prepared = 0
branch_code succeed = 1
branch_code failed = 2

branch_of : ℕ → BranchStatus
branch_of zero = prepared
branch_of (suc zero) = succeed
branch_of (suc (suc n)) = failed

branch_of-code : (s : BranchStatus) → branch_of (branch_code s) ≡ s
unfolding branch_of branch_code
branch_of-code prepared = refl
branch_of-code _ = refl

encode_int : ℤ → Bytes
encode_int (pos n) = 0 ∷ n ∷ []
encode_int (negsuc n) = 1 ∷ n ∷ []

int_of : ℕ → ℕ → ℤ
int_of zero n = pos n
int_of (suc _) n = negsuc n

int : Parser ℤ
int = do tag ← number; n ← number; pure (int_of tag n)

Reads-int : (i : ℤ) → Reads int i (encode_int i)
unfolding int encode_int number int_of
Reads-int (pos n) rest = refl
Reads-int (negsuc n) rest = refl

encode_branch : BranchTxn → Bytes
encode_branch b = encode_text b.branch_id ++ (encode_text b.action ++ branch_code b.status ∷ [])

branch : Parser BranchTxn
branch = do
  branch_id ← text
  action ← text
  s ← number
  pure (record { branch_id = branch_id; action = action; status = branch_of s })

Reads-branch : (b : BranchTxn) → Reads branch b (encode_branch b)
unfolding branch encode_branch number
Reads-branch b rest = simp append_assoc (
    step text _ b.branch_id _ _ (Reads-text b.branch_id _)
    ∙ step text _ b.action _ _ (Reads-text b.action _)
    ∙ rw branch_of-code)

encode_branches : List BranchTxn → Bytes
encode_branches [] = []
encode_branches (b ∷ bs) = encode_branch b ++ encode_branches bs

branches : ℕ → Parser (List BranchTxn)
branches zero = pure []
branches (suc n) = do b ← branch; bs ← branches n; pure (b ∷ bs)

Reads-branches : (bs : List BranchTxn) → Reads (branches (length bs)) bs (encode_branches bs)
unfolding branches encode_branches
Reads-branches [] rest = refl
Reads-branches (b ∷ bs) rest = simp append_assoc (
    step branch _ b _ _ (Reads-branch b _)
    ∙ step (branches (length bs)) _ bs _ _ (Reads-branches bs rest))

unfoldable pub encode : GlobalTxn → Bytes
unfolding encode_text global_code encode_branches encode_branch branch_code encode_int
encode tx =
    encode_text tx.gid
    ++ (encode_text tx.mode
        ++ (global_code tx.status ∷ []
            ++ (encode_text tx.payload
                ++ (length tx.branches ∷ []
                    ++ (encode_branches tx.branches
                        ++ (encode_int tx.updated_unix ++ encode_int tx.created_unix))))))

parse : Parser GlobalTxn
parse = do
  gid ← text
  mode ← text
  s ← number
  payload ← text
  n ← number
  bs ← branches n
  updated ← int
  created ← int
  pure (record {
    gid = gid;
    mode = mode;
    status = global_of s;
    payload = payload;
    branches = bs;
    updated_unix = updated;
    created_unix = created;
  })

Reads-parse : (tx : GlobalTxn) → Reads parse tx (encode tx)
unfolding parse encode number
Reads-parse tx rest = simp append_assoc (
    step text _ tx.gid _ _ (Reads-text tx.gid _)
    ∙ step text _ tx.mode _ _ (Reads-text tx.mode _)
    ∙ step text _ tx.payload _ _ (Reads-text tx.payload _)
    ∙ step (branches (length tx.branches)) _ tx.branches _ _ (Reads-branches tx.branches _)
    ∙ step int _ tx.updated_unix _ _ (Reads-int tx.updated_unix _)
    ∙ step int _ tx.created_unix _ _ (Reads-int tx.created_unix rest)
    ∙ rw global_of-code)

encode_parses : (tx : GlobalTxn) → parse (encode tx) ≡ some (tx, [])
encode_parses tx = ap parse (sym (append-nil (encode tx))) ∙ Reads-parse tx []

unfoldable pub from_slice : Bytes → Result GlobalTxn
unfolding parse text number exactly branches branch branch_of global_of int int_of
from_slice b = elim (parse b) [ some (tx, _) ↦ ok tx | none ↦ err (bytes "invalid") ]

pub from_slice-encode : (tx : GlobalTxn) (b : Bytes) → ok (encode tx) ≡ ok b → from_slice b ≡ ok tx
unfolding from_slice
from_slice-encode tx b e =
    let same : encode tx ≡ b = cc in rw (← same) (rw (encode_parses tx, from_slice))

abbrev pub sample_serde : Serde
sample_serde = record {
  to_vec = λ tx. ok (encode tx);
  from_slice = from_slice;
  round_trip = from_slice-encode;
}
