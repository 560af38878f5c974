-- ===== src/Tests/MapRepo.antt =====
-- A repository that always answers: a map as a function, in the place of seata-server/src/repo.rs.
use seata.Base.{
  ◌≡◌, refl, inl, inr, Option, none, some, Text, text_eq, text_eq→eq, ok, [], if◌then◌else◌,
  Bool-cases, arith,
}
use seata.Domain.{GlobalTxn}
use seata.Repo.{TxnRepo, RepoLaws}
use seata.Saga.World.{World}
use seata.Saga.Returns.{Answers}
use seata.Saga.Invariant.{IsWell, AllWell}
use seata.Tests.Samples.{w, t, g}

abbrev pub Transactions : Type 0
Transactions = Text → Option GlobalTxn

abbrev pub map_repo : TxnRepo Transactions
map_repo = record {
  save = λ tx s. (ok tt, λ j. if text_eq tx.gid j then some tx else s j);
  load = λ gid s. (ok (s gid), s);
  list = λ limit offset status s. (ok [], s);
}

pub map_repo-Answers : Answers map_repo
map_repo-Answers = record { load_returns = λ gid s. (s gid, refl); save_returns = λ tx s. refl }

abbrev pub map_laws : RepoLaws map_repo
map_laws = record {
  stored = λ s j. s j;
  load_ok = λ gid s r e. ground arith;
  load_keeps = λ gid s j. refl;
  save_ok = λ tx s h j. refl;
  save_either = λ tx s j. elim (Bool-cases (text_eq tx.gid j)) [
    | inl own ↦ inr (own, rw own)
    | inr other ↦ inl (rw other)
  ];
  list_ok =
      λ limit offset status s txs e. let is_empty : [] ≡ txs = ground arith in rw (← is_empty) tt;
  list_keeps = λ limit offset status s j. refl;
}

abbrev pub w_map : World Transactions
w_map = record {
  store = λ j. if text_eq g j then some t else none;
  readings = 3;
  uuids = 0;
  spawned = [];
  metrics = w.metrics;
}

t-IsWell : IsWell g t
unfolding text_eq
t-IsWell = record {
  own_gid = refl;
  has_gid = λ e. cc;
  not_aborting = λ e. cc;
  unique = (refl, (refl, tt));
}

pub w_map-AllWell : AllWell map_repo map_laws w_map
w_map-AllWell = record {
  at = λ j tx e. elim (Bool-cases (text_eq g j)) [
    | inl own ↦
        let is_t : t ≡ tx = ground (arith, own, e) in rw (← text_eq→eq g j own, ← is_t) t-IsWell
    | inr other ↦ absurd (ground (arith, other, e))
  ];
}
