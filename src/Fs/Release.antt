-- ===== src/Fs/Release.antt =====
-- `bfree` of a sequence of blocks, as the loops of `itrunc` do it.
use operating_systems_work.Base.{
  ℕ, ◌+◌, ◌<◌, ◌≤◌, ◌≡◌, ◌≢◌, refl, sym, ap, ◌∙◌, true, false, some, ◌==◌, if◌then◌else◌, arith,
  ℕ_discrete,
}
use operating_systems_work.Fs.Disk.{Disk, Superblock, bitmap_block, is_used}
use operating_systems_work.Fs.Alloc.{bfree}
use operating_systems_work.Fs.Used.{Bytes}
use operating_systems_work.Fs.Free.{IsDisk, bfree_used}
use operating_systems_work.Fs.Layout.{IsOwned}

-- The first `n` blocks of `seq` are free, and all else is as it was. Number 0 stands for no block.
pub record Freed (sb : Superblock) (seq : ℕ → ℕ) (n : ℕ) (d d' : Disk) : Type 0 where
  pub freed : (k : ℕ) → k < n → seq k ≢ 0 → is_used sb d' (seq k) ≡ false
  pub kept : (c : ℕ) → ((k : ℕ) → k < n → seq k ≢ 0 → seq k ≢ c) → is_used sb d' c ≡ is_used sb d c
  pub others : (c : ℕ) → ((e : ℕ) → e < sb.size → bitmap_block sb e ≢ c) → d' c ≡ d c
  pub bytes : Bytes d'

module _ (sb : Superblock) (seq : ℕ → ℕ) (d : Disk) (v : IsDisk sb d) (total : ℕ)
    (owned : (k : ℕ) → k < total → seq k ≢ 0 → IsOwned sb d (seq k))
    (apart : (n m : ℕ) → n < total → m < total → seq n ≢ 0 → seq n ≡ seq m → n ≡ m) where
  pub Freed-zero : Freed sb seq 0 d d
  Freed-zero = record {
    freed = λ k h. absurd (omega arith);
    kept = λ c h. refl;
    others = λ c h. refl;
    bytes = v.bytes;
  }

  pub Freed-IsDisk : (n : ℕ) (d' : Disk) → n ≤ total → Freed sb seq n d d' → IsDisk sb d'
  Freed-IsDisk n d' h f = record {
    small = v.small;
    bytes = f.bytes;
    boot = (v.boot.0, f.kept 0 (λ k l c. c) ∙ v.boot.1);
    reserved = λ c l. (
      (v.reserved c l).0,
      f.kept (bitmap_block sb c) (λ k g z e. (owned k (omega arith) z).plain c l (sym e))
          ∙ (v.reserved c l).1,
    );
  }

  -- A number that stands for no block is passed over.
  pub Freed-skip : (n : ℕ) (d' : Disk) → seq n ≡ 0 → Freed sb seq n d d' → Freed sb seq (n + 1) d d'
  Freed-skip n d' z f = record {
    freed = λ k h c. f.freed k (before k h c) c;
    kept = λ c h. f.kept c (λ k l. h k (omega arith));
    others = f.others;
    bytes = f.bytes;
  }
    where
      before : (k : ℕ) → k < n + 1 → seq k ≢ 0 → k < n
      before k h c = elim (ℕ_discrete k n) [
        | yes q ↦ absurd (c (ap seq q ∙ z))
        | no q ↦ omega arith
      ]

  pub Freed-next :
      (n : ℕ) (d' : Disk)
      → n < total
      → seq n ≢ 0
      → Freed sb seq n d d'
      → (e : Disk) × (bfree sb (seq n) d' ≡ some e) × Freed sb seq (n + 1) d e
  Freed-next n d' h z f =
      let still : is_used sb d' (seq n) ≡ true =
        f.kept (seq n) (λ k l c q. absurd (differ k l (apart k n (omega arith) h c q)))
        ∙ (owned n h z).used in
      let (e, p, used, others, bytes) =
        bfree_used sb d' (Freed-IsDisk n d' (omega arith) f) (seq n) still in
      (
        e,
        p,
        record {
          freed = λ k l c. elim (ℕ_discrete k n) [
            | yes q ↦ used (seq k) ∙ hit (seq k) (ap seq q)
            | no q ↦ used (seq k) ∙ either (seq k) (f.freed k (omega arith) c)
          ];
          kept = λ c g. used c ∙ miss c (g n (omega arith) z) ∙ f.kept c (λ k l. g k (omega arith));
          others = λ c g. others c (g (seq n) (owned n h z).on_disk) ∙ f.others c g;
          bytes = bytes;
        },
      )
    where
      differ : (k : ℕ) → k < n → k ≡ n → ⊥
      differ k l e = omega arith

      hit : (c : ℕ) → c ≡ seq n → (if c == seq n then false else is_used sb d' c) ≡ false
      hit c e = ground arith

      miss : (c : ℕ) → seq n ≢ c → (if c == seq n then false else is_used sb d' c) ≡ is_used sb d' c
      miss c e = ground arith

      either :
          (c : ℕ)
          → is_used sb d' c ≡ false
          → (if c == seq n then false else is_used sb d' c) ≡ false
      either c e = ground arith
