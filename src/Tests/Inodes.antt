-- ===== src/Tests/Inodes.antt =====
-- The properties of the inodes of the file system at the disk of eight blocks.
use operating_systems_work.Base.{
  ℕ, zero, suc, ◌≡◌, ◌≢◌, ◌<◌, refl, true, false, some, List, [], ◌∷◌, get_elem?, arith,
}
use operating_systems_work.Fs.Disk.{Disk, bitmap_block}
use operating_systems_work.Fs.Inode.{Inode}
use operating_systems_work.Fs.Whole.{IsFile}
use operating_systems_work.Fs.Dinode.{inode_block, get_short, iupdate, read_inode, itrunc}
use operating_systems_work.Fs.Slot.{IsStorable}
use operating_systems_work.Fs.Stored.{SameFields, iupdate-read_inode}
use operating_systems_work.Fs.Clear.{emptied}
use operating_systems_work.Fs.Truncate.{Truncated, itrunc_lem}
use operating_systems_work.Fs.Icache.{
  is_inode, no_inode, scan_icache, iget, iput, ialloc_from, ialloc, ilock, mark_inode,
  recycle_inode,
}
use operating_systems_work.Fs.Scan.{IsAbsent}
use operating_systems_work.Fs.Iget.{Unique, IgetPost, iget_lem}
use operating_systems_work.Fs.Iput.{erased, Erased, iput_last}
use operating_systems_work.Fs.Blank.{blank}
use operating_systems_work.Fs.Fresh.{ialloc-ilock}
use operating_systems_work.Tests.Storage.{
  layout, fresh_disk, fresh_disk-IsDisk, empty_file, written_file, written_disk, written-Wrote,
}

-- The inode blocks are not of the bitmap.
plain : (e j : ℕ) → e < 8 → j < 8 → bitmap_block layout e ≢ inode_block layout j
plain e j h k q = omega arith

storable : IsStorable written_file
storable = record {
  type = omega arith;
  major = omega arith;
  minor = omega arith;
  nlink = omega arith;
  size = omega arith;
  addrs = λ k h. ground arith;
}

iupdate-read_inode_example :
    (empty_file.inum ≡ written_file.inum
      → SameFields written_file
          (read_inode layout empty_file (iupdate layout written_file written_disk)))
    × (empty_file.inum ≢ written_file.inum
        → read_inode layout empty_file (iupdate layout written_file written_disk)
          ≡ read_inode layout empty_file written_disk)
iupdate-read_inode_example = iupdate-read_inode layout written_file empty_file written_disk storable

itrunc_lem_example :
    (d' : Disk) × (itrunc layout written_file written_disk ≡ some (emptied written_file, d'))
    × Truncated layout written_file written_disk d'
itrunc_lem_example =
    itrunc_lem layout written_file written_disk written-Wrote.sound.file storable
      (λ e h. plain e 2 h (omega arith))

-- The file when its last name is gone.
abbrev unlinked : Inode
unlinked = record written_file { nlink = 0 }

unlinked-IsFile : IsFile layout unlinked written_disk
unlinked-IsFile = record {
  disk = written-Wrote.sound.file.disk;
  layout = written-Wrote.sound.file.layout;
  fits = written-Wrote.sound.file.fits;
  whole = written-Wrote.sound.file.whole;
}

unlinked-IsStorable : IsStorable unlinked
unlinked-IsStorable = record {
  type = omega arith;
  major = omega arith;
  minor = omega arith;
  nlink = omega arith;
  size = omega arith;
  addrs = storable.addrs;
}

iput_last_example :
    (t' : List Inode) × (d' : Disk) × (iput layout 0 (unlinked ∷ []) written_disk ≡ some (t', d'))
    × (get_elem? t' 0 ≡ some (erased unlinked))
    × ((j : ℕ) → 0 ≢ j → get_elem? t' j ≡ get_elem? (unlinked ∷ []) j)
    × Erased layout unlinked written_disk d'
iput_last_example =
    iput_last layout (unlinked ∷ []) 0 unlinked written_disk refl refl unlinked-IsFile
      unlinked-IsStorable (λ e h. plain e 2 h (omega arith))

ref_of : (a b : Inode) → some a ≡ some b → a.ref ≡ 0 → b.ref ≡ 0
ref_of a b e z = cc

abbrev empty_slots : List Inode
empty_slots = no_inode ∷ no_inode ∷ []

no_refs : (k : ℕ) (x : Inode) → get_elem? empty_slots k ≡ some x → x.ref ≡ 0
no_refs zero x e = ref_of no_inode x e refl
no_refs (suc zero) x e = ref_of no_inode x e refl
no_refs (suc (suc k)) x e = absurd cc

all-IsAbsent : (j : ℕ) → IsAbsent 1 j empty_slots
all-IsAbsent j k x e = unused x (no_refs k x e)
  where
    unused : (x : Inode) → x.ref ≡ 0 → is_inode 1 j x ≡ false
    unused x z = ground arith

empty_slots-Unique : Unique empty_slots
empty_slots-Unique i j x y p q m n r s = absurd (clash (no_refs i x p) m)
  where
    clash : x.ref ≡ 0 → 0 < x.ref → ⊥
    clash z l = omega arith

iget_lem_example : IgetPost 1 2 empty_slots (iget 1 2 empty_slots)
iget_lem_example = iget_lem 1 2 empty_slots empty_slots-Unique

abbrev with_directory : Disk
with_directory = mark_inode layout 1 1 fresh_disk

abbrev opened_slots : List Inode
opened_slots = recycle_inode 1 1 no_inode ∷ no_inode ∷ []

the_new : ialloc layout 1 1 empty_slots fresh_disk ≡ some (0, opened_slots, with_directory)
unfolding ialloc ialloc_from iget scan_icache get_short
the_new = refl

ialloc-ilock_example :
    (t'' : List Inode) × (ip : Inode) × (ilock layout 0 opened_slots with_directory ≡ some t'')
    × (get_elem? t'' 0 ≡ some ip)
    × SameFields (blank 1) ip
    × (ip.ref ≡ 1)
    × (ip.valid ≡ true)
    × IsFile layout ip with_directory
ialloc-ilock_example =
    ialloc-ilock layout 1 1 empty_slots opened_slots fresh_disk with_directory 0 (omega arith)
      (omega arith) (omega arith) fresh_disk-IsDisk (λ j e h k. plain e j k h) empty_slots-Unique
      (λ j e. all-IsAbsent j) the_new
