-- ===== src/Server/Query.antt =====
-- Query parameters (`http_list_tx` and `list` of seata-server/src/main.rs): the status filter and
-- `str::parse::<usize>`.
use seata.Base.{
  ℕ, ◌^◌, ◌≡◌, refl, Option, none, some, Text, bytes, text_eq, parse_unsigned, if◌then◌else◌, arith,
  text_eq_iff, ◌↔◌,
}
use seata.Domain.{status_name, GlobalStatus, submitted, aborting, aborted, committing, committed}

-- The `match` on the text of the filter; any other text is no filter.
unfoldable pub parse_status : Text → Option GlobalStatus
parse_status t =
    if text_eq t (bytes "SUBMITTED")
    then some submitted
    else if text_eq t (bytes "ABORTING")
    then some aborting
    else if text_eq t (bytes "ABORTED")
    then some aborted
    else if text_eq t (bytes "COMMITTING")
    then some committing
    else if text_eq t (bytes "COMMITTED")
    then some committed
    else none

-- `s.parse::<usize>().ok()`
abbrev pub parse_usize : Text → Option ℕ
parse_usize s = parse_unsigned (2 ^ 64) s

name_of_parsed : (t : Text) (s : GlobalStatus) → parse_status t ≡ some s → t ≡ status_name s
unfolding parse_status
name_of_parsed t s h = ground (
  arith,
  text_eq_iff t (bytes "SUBMITTED"),
  text_eq_iff t (bytes "ABORTING"),
  text_eq_iff t (bytes "ABORTED"),
  text_eq_iff t (bytes "COMMITTING"),
  text_eq_iff t (bytes "COMMITTED"),
)

parse_status-name : (s : GlobalStatus) → parse_status (status_name s) ≡ some s
unfolding parse_status text_eq
parse_status-name submitted = refl
parse_status-name _ = refl

-- The filter of a list accepts exactly the names under which JSON shows the statuses: a text is
-- read as a status if and only if it is that status's name, and any other text is no filter.
pub parse_status_iff :
    (t : Text) (s : GlobalStatus) → (parse_status t ≡ some s) ↔ (t ≡ status_name s)
parse_status_iff t s = (name_of_parsed t s, λ e. rw e (parse_status-name s))
