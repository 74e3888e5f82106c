-- ===== src/Fs/Fresh.antt =====
-- `ilock` of a new inode reads the empty file.
use operating_systems_work.Base.{
  ℕ, ◌+◌, ◌^◌, ◌<◌, ◌≤◌, ◌≡◌, ◌≢◌, refl, sym, ap, subst, ◌∙◌, inl, inr, Bool, true, false, Option,
  none, some, List, ◌==◌, ltb, if◌then◌else◌, arith, ℕ_discrete, Bool-cases, get_elem?, set,
  get_or_of_get_elem?, get_elem?-set_self, get_elem?_lt,
}
use operating_systems_work.Fs.Disk.{Disk, Superblock, bitmap_block}
use operating_systems_work.Fs.Inode.{Inode}
use operating_systems_work.Fs.Free.{IsDisk}
use operating_systems_work.Fs.Whole.{IsFile}
use operating_systems_work.Fs.Extend.{addr_of}
use operating_systems_work.Fs.Dinode.{inode_block, get_dinode, read_inode}
use operating_systems_work.Fs.Stored.{SameFields}
use operating_systems_work.Fs.Truncate.{used_same, IsDisk-same}
use operating_systems_work.Fs.Icache.{is_inode, no_inode, dinode_type, ialloc, ilock}
use operating_systems_work.Fs.Blank.{blank}
use operating_systems_work.Fs.Scan.{IsAbsent}
use operating_systems_work.Fs.Iget.{Unique, Got, IgetPost, iget_lem}
use operating_systems_work.Fs.Ialloc.{NewInode, IallocPost, ialloc_lem}

ilock_read :
    (sb : Superblock) (i : ℕ) (t : List Inode) (d : Disk) (y : Inode)
    → get_elem? t i ≡ some y
    → 1 ≤ y.ref
    → y.valid ≡ false
    → (read_inode sb y d).type ≢ 0
    → ilock sb i t d ≡ some (set t i (record (read_inode sb y d) { valid = true }))
unfolding ilock
ilock_read sb i t d y g h v n =
    subst
      (λ z.
        (if ltb z.ref 1
          then none
          else if z.valid
          then some t
          else if (read_inode sb z d).type == 0
          then none
          else some (set t i (record (read_inode sb z d) { valid = true })))
        ≡ some (set t i (record (read_inode sb y d) { valid = true })))
      (sym (get_or_of_get_elem? t i no_inode g))
      (third _ _ _ _ (live y.ref h) v (typed (read_inode sb y d).type n))
  where
    third :
        (x y z w : Option (List Inode)) {p q r : Bool}
        → p ≡ false
        → q ≡ false
        → r ≡ false
        → (if p then x else if q then y else if r then z else w) ≡ w
    third x y z w e f g = rw (e, f, g) refl

    live : (r : ℕ) → 1 ≤ r → ltb r 1 ≡ false
    live r h = ground arith

    typed : (x : ℕ) → x ≢ 0 → (x == 0) ≡ false
    typed x n = ground arith

-- An inode that has no blocks.
blank-IsFile :
    (sb : Superblock) (type : ℕ) (ip : Inode) (d : Disk)
    → IsDisk sb d
    → SameFields (blank type) ip
    → IsFile sb ip d
blank-IsFile sb type ip d v f = record {
  disk = v;
  layout = record {
    owned = λ n h c. absurd (c (no_address n));
    owned_ind = λ h. absurd (h (f.addrs 12 (omega arith)));
    apart = λ n m h g c e. absurd (c (no_address n));
    apart_ind = λ n h c e. c (no_address n);
  };
  fits = omega (arith, f.size);
  whole = λ i h. absurd (omega (arith, f.size));
}
  where
    no_address : (n : ℕ) → addr_of ip d n ≡ 0
    no_address n = elim (Bool-cases (ltb n 12)) [
      | inl e ↦ rw e (f.addrs n (ground arith))
      | inr e ↦ rw (e, f.addrs 12 (omega arith)) refl
    ]

valid_fields : (x y : Inode) → SameFields x y → SameFields x (record y { valid = true })
valid_fields x y f = record {
  type = f.type;
  major = f.major;
  minor = f.minor;
  nlink = f.nlink;
  size = f.size;
  addrs = f.addrs;
}

read_inode_ref : (sb : Superblock) (ip : Inode) (d : Disk) → (read_inode sb ip d).ref ≡ ip.ref
unfolding read_inode get_dinode
read_inode_ref sb ip d = refl

-- The slot of a new inode was not in use.
module _ (dev inum i : ℕ) (t t' : List Inode) (a : IsAbsent dev inum t)
    (g : Got dev inum t i t') where
  was_unused : g.before.ref ≡ 0
  was_unused = elim (ℕ_discrete g.before.ref 0) [
    | yes z ↦ z
    | no n ↦ absurd (
        clash
          (held g.before n (sym (ap (λ x. x.dev) (g.hit n)) ∙ g.key.0)
            (sym (ap (λ x. x.inum) (g.hit n)) ∙ g.key.1))
          (a i g.before g.was_there))
  ]
    where
      clash : {p : Bool} → p ≡ true → p ≡ false → ⊥
      clash p q = cc

      held : (x : Inode) → x.ref ≢ 0 → x.dev ≡ dev → x.inum ≡ inum → is_inode dev inum x ≡ true
      held x n p q = ground arith

-- What `ilock` of the slot of a new inode does.
module _ (sb : Superblock) (dev type i : ℕ) (t t' : List Inode) (d d' : Disk) (nz : type ≢ 0)
    (w : NewInode sb dev type t d i t' d') (a : IsAbsent dev w.inum t)
    (g : Got dev w.inum t i t') where
  abbrev read : Inode
  read = record (read_inode sb g.after d') { valid = true }

  read_fields : SameFields (blank type) read
  read_fields = valid_fields (blank type) (read_inode sb g.after d') (w.stored g.after g.key.1)

  one_ref : g.after.ref ≡ 1
  one_ref = g.counted ∙ ap (λ n. n + 1) (was_unused dev w.inum i t t' a g)

  locked : ilock sb i t' d' ≡ some (set t' i read)
  locked =
      ilock_read sb i t' d' g.after g.is_there (omega (arith, one_ref))
        (g.miss (was_unused dev w.inum i t t' a g)).1
        (λ z. nz (sym (w.stored g.after g.key.1).type ∙ z))

  opened :
      IsDisk sb d'
      → (t'' : List Inode) × (ip : Inode) × (ilock sb i t' d' ≡ some t'')
        × (get_elem? t'' i ≡ some ip)
        × SameFields (blank type) ip
        × (ip.ref ≡ 1)
        × (ip.valid ≡ true)
        × IsFile sb ip d'
  opened v = (
    set t' i read,
    read,
    locked,
    get_elem?-set_self t' i read (get_elem?_lt t' i g.is_there),
    read_fields,
    read_inode_ref sb g.after d' ∙ one_ref,
    refl,
    blank-IsFile sb type read d' v read_fields,
  )

-- After `ialloc` has given an inode of a type that is not 0 and fits a short, on a sound disk whose
-- inodes do not lie in the bitmap, and with no free inode in the cache, `ilock` of its slot does not
-- panic: it reads an inode of that type, without links and with one reference, which is a sound file
-- without content.
pub ialloc-ilock :
    (sb : Superblock) (dev type : ℕ) (t t' : List Inode) (d d' : Disk) (i : ℕ)
    → type < 2 ^ 16
    → type ≢ 0
    → 1 ≤ sb.ninodes
    → IsDisk sb d
    → ((j e : ℕ) → j < sb.ninodes → e < sb.size → bitmap_block sb e ≢ inode_block sb j)
    → Unique t
    → ((j : ℕ) → dinode_type sb j d ≡ 0 → IsAbsent dev j t)
    → ialloc sb dev type t d ≡ some (i, t', d')
    → (t'' : List Inode) × (ip : Inode) × (ilock sb i t' d' ≡ some t'')
      × (get_elem? t'' i ≡ some ip)
      × SameFields (blank type) ip
      × (ip.ref ≡ 1)
      × (ip.valid ≡ true)
      × IsFile sb ip d'
ialloc-ilock sb dev type t t' d d' i small nz h v plain u free e =
    let w : NewInode sb dev type t d i t' d' =
      subst (IallocPost sb dev type t d) e (ialloc_lem sb dev type small t d h) in
    let g : Got dev w.inum t i t' × Unique t' =
      subst (IgetPost dev w.inum t) w.got (iget_lem dev w.inum t u) in
    opened sb dev type i t t' d d' nz w (free w.inum w.was_free) g.0 (
      IsDisk-same sb d d' v (w.bytes v.bytes)
        (used_same sb d d' (inode_block sb w.inum) w.others (λ c l. plain w.inum c w.range.1 l)))
