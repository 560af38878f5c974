-- ===== src/Domain/UnitTests.antt =====
-- The unit tests of seata-server/src/domain.rs, over parameters for serde_json. A test is `true` if
-- all its assertions hold; an `unwrap` of an error fails it.
use seata.Base.{
  ◌≡◌, refl, Bool, true, false, not, ◌&&◌, [], ◌∷◌, ◌++◌, all, Text, bytes, Result, ok, err,
  text_eq, starts_with, ◌==◌, ◌||◌, arith, All, length,
}
use seata.Domain.{
  branch_status_eq, phase_eq, GlobalStatus, submitted, aborting, aborted, committing, committed,
  status_eq, BranchStatus, prepared, succeed, failed, BarrierPhase, try, confirm, cancel, ℤ, pos,
  negsuc, BranchTxn, GlobalTxn, new_txn, BarrierKey, status_name, branch_status_name,
}

-- `derive(PartialEq)`
abbrev pub int_eq : ℤ → ℤ → Bool
int_eq (pos a) (pos b) = a == b
int_eq (negsuc a) (negsuc b) = a == b
int_eq _ _ = false

-- `serde_json::to_string` and `serde_json::from_str` at a type.
pub record Json (A : Type 0) : Type 0 where
  pub to_string : A → Result Text
  pub from_str : Text → Result A

-- `let json = serde_json::to_string(&a).unwrap(); let b = serde_json::from_str(&json).unwrap();`, and
-- what is asserted of both
abbrev pub survives : {A : Type 0} → Json A → (A → A → Bool) → A → Bool
survives json same a = elim (json.to_string a) [
  | err e ↦ false
  | ok text ↦ elim (json.from_str text) [ err e ↦ false | ok b ↦ same a b ]
]

-- `text.contains(part)`
abbrev pub contains : Text → Text → Bool
contains [] part = starts_with [] part
contains (c ∷ text) part = starts_with (c ∷ text) part || contains text part

abbrev pub shows : {A : Type 0} → Json A → A → Text → Bool
shows json a part = elim (json.to_string a) [ err e ↦ false | ok text ↦ contains text part ]

abbrev pub test_global_status_serialization : Json GlobalStatus → Bool
test_global_status_serialization json =
    all (survives json status_eq) (submitted ∷ aborting ∷ aborted ∷ committing ∷ committed ∷ [])

abbrev pub test_branch_status_serialization : Json BranchStatus → Bool
test_branch_status_serialization json =
    all (survives json branch_status_eq) (prepared ∷ succeed ∷ failed ∷ [])

abbrev pub test_barrier_phase_serialization : Json BarrierPhase → Bool
test_barrier_phase_serialization json = all (survives json phase_eq) (try ∷ confirm ∷ cancel ∷ [])

abbrev pub test_global_txn_creation : ℤ → Bool
test_global_txn_creation now =
    let gid = bytes "test-gid" in
    let mode = bytes "saga" in
    let payload = bytes "test payload" in
    let txn = new_txn gid mode payload now in
    text_eq txn.gid gid
    && (text_eq txn.mode mode
        && (text_eq txn.payload payload
            && (status_eq txn.status submitted
                && (length txn.branches == 0
                    && (int_eq txn.updated_unix now && int_eq txn.created_unix now)))))

abbrev pub test_branch_txn_creation : Bool
test_branch_txn_creation =
    let branch : BranchTxn = record {
      branch_id = bytes "branch-1";
      action = bytes "http://example.com/action";
      status = prepared;
    } in
    text_eq branch.branch_id (bytes "branch-1")
    && (text_eq branch.action (bytes "http://example.com/action")
        && branch_status_eq branch.status prepared)

abbrev pub test_barrier_key_creation : Bool
test_barrier_key_creation =
    let key : BarrierKey = record {
      gid = bytes "test-gid";
      branch_id = bytes "branch-1";
      phase = try;
    } in
    text_eq key.gid (bytes "test-gid")
    && (text_eq key.branch_id (bytes "branch-1") && phase_eq key.phase try)

-- the transaction of the test, at the time `now`
abbrev pub test_txn : ℤ → GlobalTxn
test_txn now = record {
  gid = bytes "test-gid";
  mode = bytes "saga";
  status = submitted;
  payload = bytes "test payload";
  branches =
      record {
        branch_id = bytes "branch-1";
        action = bytes "http://example.com/action1";
        status = prepared;
      }
      ∷ record {
        branch_id = bytes "branch-2";
        action = bytes "http://example.com/action2";
        status = succeed;
      }
      ∷ [];
  updated_unix = now;
  created_unix = now;
}

-- the assertions on the transaction and the one that is read back
abbrev pub same_txn : GlobalTxn → GlobalTxn → Bool
same_txn txn deserialized =
    text_eq txn.gid deserialized.gid
    && (text_eq txn.mode deserialized.mode
        && (status_eq txn.status deserialized.status
            && (text_eq txn.payload deserialized.payload
                && (length txn.branches == length deserialized.branches
                    && (int_eq txn.updated_unix deserialized.updated_unix
                        && int_eq txn.created_unix deserialized.created_unix)))))

abbrev pub test_global_txn_serialization : Json GlobalTxn → ℤ → Bool
test_global_txn_serialization json now = survives json same_txn (test_txn now)

abbrev pub test_status_equality : Bool
test_status_equality =
    status_eq submitted submitted
    && (not (status_eq submitted committed)
        && (branch_status_eq prepared prepared
            && (not (branch_status_eq prepared succeed)
                && (phase_eq try try && not (phase_eq try confirm)))))

abbrev pub test_status_string_representation : Json GlobalStatus → Json BranchStatus → Bool
test_status_string_representation json branch_json =
    shows json submitted (bytes "SUBMITTED") && shows branch_json prepared (bytes "PREPARED")

-- What serde_json does for these types: a value is written, and what is written is read back; a
-- constructor without fields is written as its name in quotes.
pub record JsonLaws {A : Type 0} (json : Json A) : Type 0 where
  pub writes : (a : A) → (text : Text) × (json.to_string a ≡ ok text)
  pub reads : (a : A) (text : Text) → json.to_string a ≡ ok text → json.from_str text ≡ ok a

abbrev pub Quotes : {A : Type 0} → Json A → (A → Text) → Type 0
Quotes {A} json name = (a : A) → json.to_string a ≡ ok (b'"' ∷ name a ++ b'"' ∷ [])

survives_lem :
    {A : Type 0} (json : Json A) (same : A → A → Bool) (a : A)
    → JsonLaws json
    → same a a ≡ true
    → survives json same a ≡ true
survives_lem json same a laws h =
    let (text, written) = laws.writes a in rw (survives, written, laws.reads a text written) h

int_eq_refl : (z : ℤ) → int_eq z z ≡ true
int_eq_refl (pos n) = ground arith
int_eq_refl (negsuc n) = ground arith

-- Where serde_json writes the values of these types, reads back what it has written, and writes a
-- status as its name in quotes, all unit tests of the domain types pass, at every time.
domain_tests_pass :
    (status_json : Json GlobalStatus) (branch_json : Json BranchStatus)
    (phase_json : Json BarrierPhase) (txn_json : Json GlobalTxn) (now : ℤ)
    → JsonLaws status_json
    → JsonLaws branch_json
    → JsonLaws phase_json
    → JsonLaws txn_json
    → Quotes status_json status_name
    → Quotes branch_json branch_status_name
    → All
        (λ passes. passes ≡ true)
        (test_global_status_serialization status_json
          ∷ test_branch_status_serialization branch_json
          ∷ test_barrier_phase_serialization phase_json
          ∷ test_global_txn_creation now
          ∷ test_branch_txn_creation
          ∷ test_barrier_key_creation
          ∷ test_global_txn_serialization txn_json now
          ∷ test_status_equality
          ∷ test_status_string_representation status_json branch_json
          ∷ [])
unfolding text_eq
domain_tests_pass status_json branch_json phase_json txn_json now s b p t quotes quotes' =
    let status =
      λ (a : GlobalStatus) (h : status_eq a a ≡ true). survives_lem status_json status_eq a s h in
    let branch = λ (a : BranchStatus) (h : branch_status_eq a a ≡ true).
      survives_lem branch_json branch_status_eq a b h in
    let phase =
      λ (a : BarrierPhase) (h : phase_eq a a ≡ true). survives_lem phase_json phase_eq a p h in
    let txn = survives_lem txn_json same_txn (test_txn now) t (rw (int_eq_refl now)) in
    let statuses : test_global_status_serialization status_json ≡ true = rw (
      status submitted refl,
      status aborting refl,
      status aborted refl,
      status committing refl,
      status committed refl,
    ) in
    let branches : test_branch_status_serialization branch_json ≡ true =
      rw (branch prepared refl, branch succeed refl, branch failed refl) in
    let phases : test_barrier_phase_serialization phase_json ≡ true =
      rw (phase try refl, phase confirm refl, phase cancel refl) in
    let created : test_global_txn_creation now ≡ true = rw (int_eq_refl now) in
    let shown : test_status_string_representation status_json branch_json ≡ true =
      rw (shows, quotes submitted, quotes' prepared) in
    (statuses, (branches, (phases, (created, (refl, (refl, (txn, (refl, (shown, tt)))))))))
