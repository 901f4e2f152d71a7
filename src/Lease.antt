-- ===== src/Lease.antt =====
-- Worktree leases, src/WorktreeLease.ts: what acquiring, recovering and releasing do to the lease
-- file of one branch, where no other process is at work. Errors of the file system are left out.
pub mod Metadata
mod Tests
pub mod Store
pub mod Exclusive
pub mod Race
use arch_loop.Prelude.{
  ℕ, String, Char, code, Option, none, some, Bool, true, false, if◌then◌else◌, leb, ◌&&◌,
}
use arch_loop.Lease.Metadata.{
  LeaseMetadata, LeaseText, json, Parsed, parsed, malformed, Detail, parse_metadata, serialize,
}

-- `branchToWorktreeName` of src/worktreeLeaseStore.ts: `/` becomes `-`
unfoldable pub branch_to_worktree_name : String → String
branch_to_worktree_name String.[] = String.[]
branch_to_worktree_name (String.◌∷◌ c s) =
    let rest = branch_to_worktree_name s in
    String.◌∷◌ (if leb (code c) b'/' && leb b'/' (code c) then "-" else c) rest

-- The lease file of the branch, and whether its worktree is a directory.
pub record Disk : Type 0 where
  pub lease_file : Option LeaseText
  pub worktree_exists : Bool

-- `WorktreeLeaseError`, by its reason
pub data LeaseError : Type 0 where
  active_lease : LeaseMetadata → LeaseError
  recovery : LeaseError
  malformed_lease : Detail → LeaseError

pub data Result (A : Type 0) : Type 0 where
  ok : A → Result A
  err : LeaseError → Result A

-- An effect that reads and writes the disk and may fail.
abbrev pub Effect : Type 0 → Type 0
Effect A = Disk → Disk × Result A

infixl 5 ◌>>=◌ ◌>>◌
abbrev pub ◌>>=◌ : {A B : Type 0} → Effect A → (A → Effect B) → Effect B
◌>>=◌ m f d = let (d', r) = m d in elim r [ ok a ↦ f a d' | err e ↦ (d', err e) ]

abbrev pub ◌>>◌ : {A B : Type 0} → Effect A → Effect B → Effect B
m >> k = m >>= λ _. k

abbrev pub succeed : {A : Type 0} → A → Effect A
succeed a d = (d, ok a)

abbrev pub fail : {A : Type 0} → LeaseError → Effect A
fail e d = (d, err e)

pub data Recovery : Type 0 where
  removed active absent : Recovery

-- `is_alive` answers `isProcessAlive`, which asks the operating system.
module _ (is_alive : ℕ → Bool) (branch : String) where
  unfoldable pub read_lease : Effect LeaseMetadata
  read_lease d = elim d.lease_file [
    | none ↦ (d, err (malformed_lease Detail.unreadable))
    | some content ↦ elim (parse_metadata content branch true) [
      | parsed m ↦ (d, ok m)
      | malformed detail ↦ (d, err (malformed_lease detail))
    ]
  ]

  unfoldable pub remove_lease : Effect (Unit {0})
  remove_lease d = (record d { lease_file = none }, ok tt)

  -- `createLeaseFileAtomic`: the file is opened with `wx`
  unfoldable pub create_lease : LeaseMetadata → Effect (Unit {0})
  create_lease m d = elim d.lease_file [
    | none ↦ (record d { lease_file = some (json (serialize m)) }, ok tt)
    | some content ↦ (d, err recovery)
  ]

  recover_existing : Effect Recovery
  unfolding read_lease remove_lease
  recover_existing = do
    m ← read_lease
    if is_alive m.pid then succeed active else (remove_lease >> succeed removed)

  -- `recoverStaleWorktreeLeaseIfNeeded`
  unfoldable pub recover_stale : Effect Recovery
  unfolding recover_existing
  recover_stale d = elim d.lease_file [
    | none ↦ (d, ok absent)
    | some content ↦
        if d.worktree_exists then recover_existing d else (remove_lease >> succeed removed) d
  ]

  -- the rest of `checkWorktreeLeaseBeforeHubRetry`; the result is `staleLeaseCleared`
  after_recovery : Recovery → Effect Bool
  unfolding read_lease
  after_recovery active = do existing ← read_lease; fail (active_lease existing)
  after_recovery removed = succeed true
  after_recovery absent = succeed false

  unfoldable pub check_before_retry : Effect Bool
  unfolding recover_stale after_recovery
  check_before_retry = recover_stale >>= after_recovery

  -- the handler of `Effect.catchTag` in `acquireWorktreeLease`
  retry_on_recovery : LeaseMetadata → Effect (Unit {0}) → Effect (Unit {0})
  retry_on_recovery m try d =
      let (d', r) = try d in
      elim r [
        | ok a ↦ (d', ok a)
        | err e ↦ elim e [
          | recovery ↦ (check_before_retry >> create_lease m) d'
          | active_lease n ↦ (d', err (active_lease n))
          | malformed_lease detail ↦ (d', err (malformed_lease detail))
        ]
      ]

  -- `acquireWorktreeLease`; the result is the metadata that the handle is made from
  unfoldable pub acquire : LeaseMetadata → Effect LeaseMetadata
  unfolding check_before_retry retry_on_recovery create_lease
  acquire m = check_before_retry >> retry_on_recovery m (create_lease m) >> succeed m

  -- `releaseWorktreeLease`
  unfoldable pub release : Effect (Unit {0})
  unfolding remove_lease
  release = remove_lease
