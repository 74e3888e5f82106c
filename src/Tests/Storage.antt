-- ===== src/Tests/Storage.antt =====
-- The properties of the block map and of file content at a disk of eight blocks.
use operating_systems_work.Base.{
  ℕ, ◌+◌, ◌-◌, ◌%◌, ◌≡◌, refl, ap, subst, ◌∙◌, true, none, some, ◌==◌, ltb, leb, if◌then◌else◌,
  arith,
}
use operating_systems_work.Fs.Disk.{Disk, put_block, Superblock, is_used, bitmap_block, set_bit}
use operating_systems_work.Fs.Alloc.{bzero, change_bit, balloc_from, balloc}
use operating_systems_work.Fs.Inode.{Inode, set_addr, ensure_addr, bmap, write_loop}
use operating_systems_work.Fs.Transfer.{Devsw, set_size, readi, writei}
use operating_systems_work.Fs.Dinode.{iupdate}
use operating_systems_work.Fs.Free.{IsDisk}
use operating_systems_work.Fs.Extend.{Apart, addr_of, IsMapped, byte_at}
use operating_systems_work.Fs.Whole.{IsFile, IsWritable, Wrote, WriteiPost, writei_lem}
use operating_systems_work.Fs.Roundtrip.{readi_lem, writei-readi}

abbrev pub layout : Superblock
layout = record { size = 8; ninodes = 8; inodestart = 2; bmapstart = 3 }

-- The blocks 0 to 3 are in use.
abbrev pub fresh_disk : Disk
fresh_disk b i = if b == 3 then if i == 0 then 15 else 0 else 0

abbrev pub empty_file : Inode
empty_file = record {
  dev = 1;
  inum = 2;
  ref = 1;
  valid = true;
  type = 2;
  major = 0;
  minor = 0;
  nlink = 1;
  size = 0;
  addrs = λ i. 0;
}

abbrev pub letters : ℕ → ℕ
letters i = i % 26 + 97

pub fresh_disk-IsDisk : IsDisk layout fresh_disk
fresh_disk-IsDisk = record {
  small = omega arith;
  bytes = λ b i. ground arith;
  boot = (omega arith, refl);
  reserved = λ c h. (
    omega arith,
    (let e : bitmap_block layout c ≡ 3 = omega arith in ap (is_used layout fresh_disk) e ∙ refl),
  );
}

no_address : (n : ℕ) → addr_of empty_file fresh_disk n ≡ 0
no_address n = ground arith

pub empty_file-IsMapped : IsMapped layout empty_file fresh_disk
empty_file-IsMapped = record {
  owned = λ n h c. absurd (c (no_address n));
  owned_ind = λ h. absurd (h refl);
  apart = λ n m h g c e. absurd (c (no_address n));
  apart_ind = λ n h c e. c (no_address n);
}

pub empty_file-IsFile : IsFile layout empty_file fresh_disk
empty_file-IsFile = record {
  disk = fresh_disk-IsDisk;
  layout = empty_file-IsMapped;
  fits = omega arith;
  whole = λ i h. absurd (omega arith);
}

-- Block 2, which holds the inodes 0 to 7, is none of those of an empty file.
pub inodes-Apart : (ip : Inode) → ((k : ℕ) → ip.addrs k ≡ 0) → Apart layout ip fresh_disk 2
inodes-Apart ip z = record {
  owned = record { on_disk = omega arith; used = refl; plain = λ e h. omega arith };
  content = λ n h c. absurd (c (no_blocks n));
  index = λ e. absurd (omega (arith, e, z 12));
}
  where
    no_blocks : (n : ℕ) → addr_of ip fresh_disk n ≡ 0
    no_blocks n = ground (arith, z n, z 12)

pub empty_file-IsWritable : IsWritable layout empty_file fresh_disk
empty_file-IsWritable = record {
  file = empty_file-IsFile;
  regular = λ e. absurd (omega (arith, e));
  storable = record {
    type = omega arith;
    major = omega arith;
    minor = omega arith;
    nlink = omega arith;
    size = omega arith;
    addrs = λ k h. omega arith;
  };
  home = inodes-Apart empty_file (λ k. refl);
}

abbrev pub no_devices : ℕ → Devsw
no_devices k = record { read = none; write = none }

abbrev pub after_balloc : Disk
after_balloc = bzero 4 (change_bit layout set_bit 4 fresh_disk)

writei_lem_example :
    WriteiPost layout 0 3 letters empty_file fresh_disk
      (writei no_devices layout 0 3 empty_file fresh_disk letters)
writei_lem_example =
    writei_lem no_devices layout 0 3 (omega arith) (omega arith) letters (λ i. omega arith)
      empty_file fresh_disk empty_file-IsWritable

abbrev pub written_file : Inode
written_file = record (set_addr empty_file 0 4) { size = 3 }

abbrev pub put_disk : Disk
put_disk = put_block after_balloc 4 (λ j.
    if leb 0 j then if ltb j 3 then letters (j - 0 + 0) else after_balloc 4 j else after_balloc 4 j)

abbrev pub written_disk : Disk
written_disk = iupdate layout written_file put_disk

the_write :
    writei no_devices layout 0 3 empty_file fresh_disk letters
    ≡ some (some 3, written_file, written_disk)
unfolding writei set_size write_loop bmap ensure_addr balloc balloc_from bzero set_bit
the_write = refl

pub written-Wrote : Wrote layout 0 3 letters empty_file fresh_disk written_file written_disk
written-Wrote =
    (subst (WriteiPost layout 0 3 letters empty_file fresh_disk) the_write writei_lem_example).3

abbrev pub blanks : ℕ → ℕ
blanks j = 32

readi_lem_example :
    (out' : ℕ → ℕ) × (readi no_devices layout 1 9 written_file written_disk blanks
      ≡ some (some 2, written_file, written_disk, out'))
    × ((j : ℕ) → out' j ≡ (if ltb j 2 then byte_at written_file written_disk (j + 1) else 32))
readi_lem_example =
    readi_lem no_devices layout 1 9 written_file written_disk blanks written-Wrote.sound.file
      written-Wrote.sound.regular (omega arith) (omega arith)

writei-readi_example :
    (out' : ℕ → ℕ) × (readi no_devices layout 0 3 written_file written_disk blanks
      ≡ some (some 3, written_file, written_disk, out'))
    × ((j : ℕ) → out' j ≡ (if ltb j 3 then letters j else 32))
writei-readi_example =
    writei-readi no_devices layout 0 3 letters empty_file written_file fresh_disk written_disk 3
      blanks (omega arith) (omega arith) (λ i. omega arith) empty_file-IsWritable the_write
