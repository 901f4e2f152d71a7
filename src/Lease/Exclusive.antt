-- ===== src/Lease/Exclusive.antt =====
-- Acquiring a lease where no other process interferes, src/WorktreeLease.ts.
use arch_loop.Prelude.{subst, refl, ℕ, ◌≡◌, String, none, some, Bool, true, false, arith}
use arch_loop.Lease.Metadata.{
  Detail, LeaseMetadata, LeaseText, json, parsed, malformed, parse_metadata, serialize, IsWritable,
  parse-serialize,
}
use arch_loop.Lease.{Disk, LeaseError, active_lease, malformed_lease, ok, err, acquire, release}

-- What lets a branch be leased: no lease file, no worktree, or a lease of a process that is gone.
pub data IsFree (is_alive : ℕ → Bool) (branch : String) (d : Disk) : Type 0 where
  unleased : d.lease_file ≡ none → IsFree is_alive branch d
  no_worktree : d.worktree_exists ≡ false → IsFree is_alive branch d
  abandoned :
      (content : LeaseText) (old : LeaseMetadata)
      → d.lease_file ≡ some content
      → parse_metadata content branch true ≡ parsed old
      → is_alive old.pid ≡ false
      → IsFree is_alive branch d

-- A lease of a live process or a malformed one, and the error that it is refused with.
pub data Refuses (is_alive : ℕ → Bool) (branch : String) (content : LeaseText)
    : LeaseError → Type 0 where
  owned :
      (old : LeaseMetadata)
      → parse_metadata content branch true ≡ parsed old
      → is_alive old.pid ≡ true
      → Refuses is_alive branch content (active_lease old)
  broken :
      (detail : Detail)
      → parse_metadata content branch true ≡ malformed detail
      → Refuses is_alive branch content (malformed_lease detail)

module _ (is_alive : ℕ → Bool) (branch : String) where
  -- A free branch is leased: the lease file then holds the metadata, the worktree is as it was.
  pub acquire_free :
      (m : LeaseMetadata) (d : Disk)
      → IsFree is_alive branch d
      → acquire is_alive branch m d ≡ (record d { lease_file = some (json (serialize m)) }, ok m)
  unfolding acquire
  acquire_free m d (unleased e) = ground arith
  acquire_free m d (no_worktree e) = ground arith
  acquire_free m d (abandoned content old e p gone) = ground arith

  -- Where the worktree is there and its lease refuses another one, nothing is changed, and the error
  -- tells why.
  pub acquire_taken :
      (m : LeaseMetadata) (d : Disk) (content : LeaseText) (e : LeaseError)
      → d.lease_file ≡ some content
      → d.worktree_exists ≡ true
      → Refuses is_alive branch content e
      → acquire is_alive branch m d ≡ (d, err e)
  unfolding acquire
  acquire_taken m d content e l w (owned old p live) = ground arith
  acquire_taken m d content e l w (broken detail p) = ground arith

  -- Where the branch is free and its worktree is there, a live process that acquires the lease has
  -- it for itself until it releases it: another attempt changes nothing and names the owner, and
  -- succeeds after the release.
  pub acquire_exclusive :
      (m n : LeaseMetadata) (d : Disk)
      → IsFree is_alive branch d
      → d.worktree_exists ≡ true
      → IsWritable m
      → m.branch ≡ branch
      → is_alive m.pid ≡ true
      → let held = (acquire is_alive branch m d).0 in
        (acquire is_alive branch n held ≡ (held, err (active_lease m)))
        × ((acquire is_alive branch n (release is_alive branch held).0).1 ≡ ok n)
  acquire_exclusive m n d free w good same live = rw (acquire_free m d free) (
    acquire_taken n held (json (serialize m)) (active_lease m) refl w (
        owned m
          (subst (λ b. parse_metadata (json (serialize m)) b true ≡ parsed m) same
            (parse-serialize m good))
          live),
    (unfold release in rw (acquire_free n (record held { lease_file = none }) (unleased refl))),
  )
    where
      held : Disk
      held = record d { lease_file = some (json (serialize m)) }
