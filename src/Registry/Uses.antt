-- ===== src/Registry/Uses.antt =====
-- maintenance.go: the uses that a manager counts between sweeps, and lsof's rows.
use gopls_mcp_manager.Prelude.{
  ℕ, ◌+◌, String, Bool, true, false, not, ◌&&◌, ◌≡◌, refl, leb, ltb, ℤ, pos, arith, if◌then◌else◌,
  List, [], ◌∷◌, map, KeyEq, string_eq, nat_eq, int_eq, Map, lookup, insert, weight, lookup-insert,
  IsUnique,
}
use gopls_mcp_manager.Registry.State.{Record}
use gopls_mcp_manager.Registry.Store.{
  MapFile, Error, Result, ok, err, read_map, with_map, committed, stored_as, write_map,
}

abbrev self : ℕ → ℕ
self n = n

-- `counts[worktree]`
abbrev pub count {ℓ} : {K : Type ℓ} ⦃e : KeyEq K⦄ → K → Map K ℕ → ℕ
count k counts = weight self (lookup k counts)

-- `used`: one delivered tools/call.
unfoldable pub used : String → Map String ℕ → Map String ℕ
used worktree counts = insert worktree (count worktree counts + 1) counts

-- The loop of `flushUses` that takes the counts back after a failed commit.
unfoldable pub merge_counts : Map String ℕ → Map String ℕ → Map String ℕ
merge_counts [] counts = counts
merge_counts ((worktree, n) ∷ flushed) counts =
    merge_counts flushed (insert worktree (count worktree counts + n) counts)

-- `aged r n` is `r.frequency(now) + float64(n)`.
module _ (aged : Record → ℕ → ℕ) (now_seconds : ℤ) (counts : Map String ℕ) where
  unfoldable pub with_uses : Record → Record
  with_uses r =
      let n = count r.worktree counts in
      if leb 1 n && not r.terminating
      then record r { uses = aged r n; used_at = now_seconds }
      else r

  unfoldable pub uses_body : List Record → Result (List Record) × Unit {0}
  uses_body records = (ok (map with_uses records), tt)

  -- What `flushUses` leaves in the counts, to which others added `meanwhile`.
  unfoldable pub counts_left : Map String ℕ → Result (List Record) → Map String ℕ
  unfolding merge_counts
  counts_left meanwhile (ok records) = meanwhile
  counts_left meanwhile (err e) = merge_counts counts meanwhile

  -- `flushUses`: the file, its result, and the counts.
  unfoldable pub flush_uses :
      (String → Bool) → MapFile → Map String ℕ → MapFile × Result (List Record) × Map String ℕ
  unfolding uses_body counts_left
  flush_uses valid_utf8 file meanwhile =
      let (file', result, done) = with_map valid_utf8 file uses_body in
      (file', result, counts_left meanwhile result)

-- The first number of a `p<pid>` line, or one of a file's lines.
pub data Row : Type 0 where
  process_line : ℤ → Row
  file_line : Row
  other_line : Row

abbrev pub above_zero : ℤ → Bool
above_zero (pos n) = ltb 0 n
above_zero pid = false

-- `parseOpenFiles`, on rows that are read already; 0 is no process.
unfoldable pub count_rows : List Row → ℤ → Map ℤ ℕ → Map ℤ ℕ
count_rows [] pid counts = counts
count_rows (process_line pid' ∷ rows) pid counts = count_rows rows pid' counts
count_rows (file_line ∷ rows) pid counts =
    count_rows rows pid
      (if above_zero pid then insert pid (count pid counts + 1) counts else counts)
count_rows (other_line ∷ rows) pid counts = count_rows rows pid counts

unfoldable pub parse_open_files : List Row → Map ℤ ℕ
unfolding count_rows
parse_open_files rows = count_rows rows (pos 0) []

merge_counts-sum :
    (flushed counts : Map String ℕ) (worktree : String)
    → IsUnique flushed
    → count worktree (merge_counts flushed counts) ≡ count worktree flushed + count worktree counts
unfolding merge_counts lookup
merge_counts-sum [] counts w u = omega arith
merge_counts-sum ((x, n) ∷ flushed) counts w u = ground (
  arith,
  string_eq.same_iff x w,
  lookup-insert x w (count x counts + n) counts,
  merge_counts-sum flushed (insert x (count x counts + n) counts) w u.1,
)

with_uses-same :
    (aged : Record → ℕ → ℕ) (now_seconds : ℤ) (counts : Map String ℕ) (r : Record)
    → r.terminating ≡ true
    → with_uses aged now_seconds counts r ≡ r
unfolding with_uses
with_uses-same aged now_seconds counts r h = ground (arith, h)

committed-failed :
    (valid_utf8 : String → Bool) {S : Type 0} (file : MapFile) (p : Result (List Record) × S)
    (e : Error)
    → (committed valid_utf8 file p).1 ≡ err e
    → (committed valid_utf8 file p).0 ≡ file
unfolding committed stored_as write_map
committed-failed valid_utf8 file (err x, s) e h = refl
committed-failed valid_utf8 file (ok u, s) e h = ground arith

pub flush_uses-failed :
    (aged : Record → ℕ → ℕ) (now_seconds : ℤ) (counts meanwhile : Map String ℕ)
    (valid_utf8 : String → Bool) (file : MapFile) (e : Error)
    → IsUnique counts
    → (flush_uses aged now_seconds counts valid_utf8 file meanwhile).1 ≡ err e
    → ((flush_uses aged now_seconds counts valid_utf8 file meanwhile).0 ≡ file)
      × ((worktree : String)
          → count worktree (flush_uses aged now_seconds counts valid_utf8 file meanwhile).2
            ≡ count worktree counts + count worktree meanwhile)
unfolding flush_uses with_map counts_left
flush_uses-failed aged now_seconds counts meanwhile valid_utf8 file e u h = (
  committed-failed valid_utf8 file (uses_body aged now_seconds counts (read_map file).0) e h,
  λ worktree. rw h (merge_counts-sum counts meanwhile worktree u),
)
