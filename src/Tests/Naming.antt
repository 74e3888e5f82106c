-- ===== src/Tests/Naming.antt =====
-- The properties of directories at a small disk.
use operating_systems_work.Base.{
  ℕ, zero, suc, ◌<◌, ◌+◌, ◌-◌, ◌≡◌, refl, true, Option, some, List, [], ◌∷◌, ltb, leb,
  if◌then◌else◌, arith,
}
use operating_systems_work.Fs.Disk.{Disk, put_block, set_bit}
use operating_systems_work.Fs.Alloc.{balloc_from, balloc, bzero}
use operating_systems_work.Fs.Inode.{Inode, set_addr, ensure_addr, bmap, write_loop}
use operating_systems_work.Fs.Transfer.{set_size, writei}
use operating_systems_work.Fs.Dinode.{iupdate}
use operating_systems_work.Fs.Icache.{no_inode}
use operating_systems_work.Fs.Iget.{Unique}
use operating_systems_work.Fs.Whole.{IsFile, IsWritable}
use operating_systems_work.Fs.Directory.{
  lookup_loop, dirlookup, empty_loop, new_entry, put_entry, dirlink,
}
use operating_systems_work.Fs.Lookup.{FirstMatch}
use operating_systems_work.Fs.Found.{DirlookupPost, dirlookup_lem}
use operating_systems_work.Fs.Walk.{elements}
use operating_systems_work.Fs.Linked.{DirlinkPost, dirlink-dirlookup}
use operating_systems_work.Tests.Storage.{
  layout, fresh_disk, fresh_disk-IsDisk, empty_file, empty_file-IsMapped, letters, after_balloc,
  blanks, no_devices, inodes-Apart,
}

abbrev empty_dir : Inode
empty_dir = record empty_file { type = 1 }

empty_dir-IsFile : IsFile layout empty_dir fresh_disk
empty_dir-IsFile = record {
  disk = fresh_disk-IsDisk;
  layout = record {
    owned = empty_file-IsMapped.owned;
    owned_ind = empty_file-IsMapped.owned_ind;
    apart = empty_file-IsMapped.apart;
    apart_ind = empty_file-IsMapped.apart_ind;
  };
  fits = omega arith;
  whole = λ i h. absurd (omega arith);
}

empty_dir-IsWritable : IsWritable layout empty_dir fresh_disk
empty_dir-IsWritable = record {
  file = empty_dir-IsFile;
  regular = λ e. absurd (omega (arith, e));
  storable = record {
    type = omega arith;
    major = omega arith;
    minor = omega arith;
    nlink = omega arith;
    size = omega arith;
    addrs = λ k h. omega arith;
  };
  home = inodes-Apart empty_dir (λ k. refl);
}

-- A cache with the directory in its first slot.
abbrev slots_with : Inode → List Inode
slots_with dp = dp ∷ no_inode ∷ []

abbrev linked_dir : Inode
linked_dir = record (set_addr empty_dir 0 4) { size = 16 }

abbrev linked_disk : Disk
linked_disk = iupdate layout linked_dir (
    put_block after_balloc 4 (λ j.
      if leb 0 j
      then if ltb j 16 then new_entry letters 5 blanks (j - 0 + 0) else after_balloc 4 j
      else after_balloc 4 j))

the_link :
    dirlink no_devices layout letters 5 0 (slots_with empty_dir) fresh_disk blanks
    ≡ some (true, slots_with linked_dir, linked_disk)
unfolding dirlink dirlookup lookup_loop empty_loop put_entry writei set_size write_loop bmap
    ensure_addr balloc balloc_from bzero set_bit
the_link = refl

dirlink-dirlookup_example :
    DirlinkPost no_devices layout letters
      (λ i. omega arith)
      5
      (omega arith)
      (omega arith)
      0
      (slots_with empty_dir)
      empty_dir
      fresh_disk
      refl
      empty_dir-IsWritable
      refl
      refl
      (slots_with linked_dir)
      linked_disk
dirlink-dirlookup_example =
    dirlink-dirlookup no_devices layout letters (λ i. omega arith) 5 (omega arith) (omega arith) 0
      (slots_with empty_dir) empty_dir fresh_disk refl empty_dir-IsWritable refl refl blanks
      (slots_with linked_dir) linked_disk the_link

empty_slots-Unique : Unique (slots_with empty_dir)
empty_slots-Unique zero zero x y e f p q r s = refl
empty_slots-Unique zero (suc zero) x y e f p q r s = absurd (unused y f q)
  where
    unused : (y : Inode) → some no_inode ≡ some y → 0 < y.ref → ⊥
    unused y f q = ground arith
empty_slots-Unique (suc zero) j x y e f p q r s = absurd (unused x e p)
  where
    unused : (y : Inode) → some no_inode ≡ some y → 0 < y.ref → ⊥
    unused y f q = ground arith
empty_slots-Unique zero (suc (suc j)) x y e f p q r s = absurd cc
empty_slots-Unique (suc (suc i)) j x y e f p q r s = absurd cc

dirlookup_lem_example :
    (r : Option (ℕ × ℕ)) × FirstMatch letters empty_dir fresh_disk r
    × DirlookupPost 1
        (slots_with empty_dir)
        fresh_disk
        r
        (dirlookup no_devices layout letters 0 (slots_with empty_dir) fresh_disk blanks)
dirlookup_lem_example =
    dirlookup_lem no_devices layout 0 (slots_with empty_dir) empty_dir fresh_disk refl
      empty_dir-IsFile letters (λ i. omega arith) blanks refl refl empty_slots-Unique

-- The path "/a/".
abbrev slash_a : List ℕ
slash_a = 47 ∷ 97 ∷ 47 ∷ []

one_element : elements slash_a ≡ (97 ∷ []) ∷ []
unfolding elements
one_element = refl
