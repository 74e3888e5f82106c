-- ===== src/Fs/Clear.antt =====
-- The rounds of `itrunc`, by what they do to the inode.
use operating_systems_work.Base.{
  ℕ, suc, ◌+◌, ◌≡◌, ◌≢◌, refl, ap, false, some, ◌==◌, ltb, if◌then◌else◌, arith, ℕ_discrete,
}
use operating_systems_work.Fs.Disk.{Disk, Superblock}
use operating_systems_work.Fs.Alloc.{bfree}
use operating_systems_work.Fs.Inode.{Inode, get_uint, set_addr}
use operating_systems_work.Fs.Dinode.{
  iupdate, free_addr, free_direct, free_entry, free_entries, free_indirect, itrunc,
}

-- The inode with its first `n` addresses set to 0.
abbrev pub cleared : ℕ → Inode → Inode
cleared n ip = record ip { addrs = λ k. if ltb k n then 0 else ip.addrs k }

-- The inode of the empty file.
abbrev pub emptied : Inode → Inode
emptied ip = record ip { size = 0; addrs = λ k. if ltb k 13 then 0 else ip.addrs k }

pub cleared_zero : (ip : Inode) → cleared 0 ip ≡ ip
cleared_zero ip = λ i. record ip { addrs = λ k. same k i }
  where
    same : (k : ℕ) → (if ltb k 0 then 0 else ip.addrs k) ≡ ip.addrs k
    same k = ground arith

pub cleared_set : (n : ℕ) (ip : Inode) → set_addr (cleared n ip) n 0 ≡ cleared (n + 1) ip
cleared_set n ip = λ i. record ip { addrs = λ k. same k i }
  where
    same :
        (k : ℕ)
        → (if k == n then 0 else if ltb k n then 0 else ip.addrs k)
          ≡ (if ltb k (n + 1) then 0 else ip.addrs k)
    same k = ground arith

pub cleared_skip : (n : ℕ) (ip : Inode) → ip.addrs n ≡ 0 → cleared n ip ≡ cleared (n + 1) ip
cleared_skip n ip z = λ i. record ip { addrs = λ k. same k i }
  where
    same : (k : ℕ) → (if ltb k n then 0 else ip.addrs k) ≡ (if ltb k (n + 1) then 0 else ip.addrs k)
    same k = elim (ℕ_discrete k n) [ yes q ↦ ground (arith, ap ip.addrs q) | no q ↦ ground arith ]

module _ (sb : Superblock) (i : ℕ) (ip : Inode) (d : Disk) where
  pub free_addr_none : ip.addrs i ≡ 0 → free_addr sb i ip d ≡ some (ip, d)
  unfolding free_addr
  free_addr_none z = rw z refl

  pub free_addr_freed :
      (e : Disk)
      → ip.addrs i ≢ 0
      → bfree sb (ip.addrs i) d ≡ some e
      → free_addr sb i ip d ≡ some (set_addr ip i 0, e)
  unfolding free_addr
  free_addr_freed e z h = (let t : (ip.addrs i == 0) ≡ false = ground arith in rw (t, h) refl)

  pub free_direct_next :
      (n : ℕ) (ip' : Inode) (e : Disk)
      → free_addr sb i ip d ≡ some (ip', e)
      → free_direct sb (suc n) i ip d ≡ free_direct sb n (i + 1) ip' e
  unfolding free_direct
  free_direct_next n ip' e h = rw (free_direct, h) refl

module _ (sb : Superblock) (ia j : ℕ) (d : Disk) where
  pub free_entry_none : get_uint (d ia) j ≡ 0 → free_entry sb ia j d ≡ some d
  unfolding free_entry
  free_entry_none z = rw z refl

  pub free_entry_freed :
      get_uint (d ia) j ≢ 0 → free_entry sb ia j d ≡ bfree sb (get_uint (d ia) j) d
  unfolding free_entry
  free_entry_freed z = (let t : (get_uint (d ia) j == 0) ≡ false = ground arith in rw t refl)

  pub free_entries_next :
      (n : ℕ) (e : Disk)
      → free_entry sb ia j d ≡ some e
      → free_entries sb (suc n) ia j d ≡ free_entries sb n ia (j + 1) e
  unfolding free_entries
  free_entries_next n e h = rw (free_entries, h) refl

module _ (sb : Superblock) (ip : Inode) (d : Disk) where
  pub free_indirect_none : ip.addrs 12 ≡ 0 → free_indirect sb ip d ≡ some (ip, d)
  unfolding free_indirect
  free_indirect_none z = rw z refl

  pub free_indirect_freed :
      (e : Disk)
      → ip.addrs 12 ≢ 0
      → free_entries sb 128 (ip.addrs 12) 0 d ≡ some e
      → free_indirect sb ip d ≡ free_addr sb 12 ip e
  unfolding free_indirect
  free_indirect_freed e z h = (let t : (ip.addrs 12 == 0) ≡ false = ground arith in rw (t, h) refl)

  pub itrunc_steps :
      (ip' ip'' : Inode) (e e' : Disk)
      → free_direct sb 12 0 ip d ≡ some (ip', e)
      → free_indirect sb ip' e ≡ some (ip'', e')
      → itrunc sb ip d ≡ some (record ip'' { size = 0 }, iupdate sb (record ip'' { size = 0 }) e')
  unfolding itrunc
  itrunc_steps ip' ip'' e e' p q = rw (itrunc, p, q) refl
