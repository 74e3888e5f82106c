-- ===== src/Log/Install.antt =====
-- What the loops of `write_log` and `install_trans` leave on the disk.
use operating_systems_work.Base.{
  ℕ, suc, ◌+◌, ◌<◌, ◌≡◌, refl, ap, ◌∙◌, Bool, true, false, List, [], ◌∷◌, ◌==◌, if◌then◌else◌,
  arith, length,
}
use operating_systems_work.Log.{
  Disk, to_slot, to_home, apply, run, write_log, install_trans, write_head, recover_from_log,
}
use operating_systems_work.Log.Prefix.{run-append}

abbrev pub holds : ℕ → List ℕ → Bool
holds b [] = false
holds b (c ∷ cs) = if b == c then true else holds b cs

module _ {D : Type 0} where
  -- The home blocks once the transaction `lh` of the cache has taken effect.
  abbrev pub overlay : (ℕ → D) → List ℕ → (ℕ → D) → ℕ → D
  overlay cache lh home b = if holds b lh then cache b else home b

  -- What the home blocks are when recovery has run on the disk.
  abbrev pub recovered : Disk D → ℕ → D
  recovered k = (run (recover_from_log k) k).home

  -- The log's data blocks from `tail` on hold what the cache has for the blocks.
  abbrev pub Logged : (ℕ → D) → List ℕ → ℕ → (ℕ → D) → Type 0
  Logged cache [] tail slots = Unit
  Logged cache (b ∷ bs) tail slots = (slots tail ≡ cache b) × Logged cache bs (tail + 1) slots

  -- Home blocks outside `lh` are as in `home`.
  abbrev pub Outside : List ℕ → (ℕ → D) → (ℕ → D) → Type 0
  Outside lh home h = (b : ℕ) → holds b lh ≡ false → h b ≡ home b

  pub install_home :
      (cache : ℕ → D) (lh : List ℕ) (tail : ℕ) (k : Disk D)
      → Logged cache lh tail k.slots
      → (b : ℕ) → (run (install_trans tail lh k) k).home b ≡ overlay cache lh k.home b
  unfolding run install_trans
  install_home cache [] tail k h b = refl
  install_home cache (c ∷ cs) tail k h b =
      install_home cache cs (tail + 1) _ h.1 b ∙ ground (arith, h.0)

  pub install_rest :
      (lh : List ℕ) (tail : ℕ) (k : Disk D)
      → ((run (install_trans tail lh k) k).head ≡ k.head)
        × ((run (install_trans tail lh k) k).slots ≡ k.slots)
  unfolding run install_trans
  install_rest [] tail k = (refl, refl)
  install_rest (c ∷ cs) tail k = install_rest cs (tail + 1) (apply (to_home c (k.slots tail)) k)

  pub recovered_lem : (k : Disk D) → recovered k ≡ (run (install_trans 0 k.head k) k).home
  unfolding recover_from_log run write_head
  recovered_lem k = ap (λ d. d.home) (run-append (install_trans 0 k.head k) (write_head []) k)

  pub recovered_clean : (k : Disk D) → k.head ≡ [] → recovered k ≡ k.home
  unfolding run install_trans
  recovered_clean k e = recovered_lem k ∙ ap (λ h. (run (install_trans 0 h k) k).home) e

  pub recovered-Logged :
      (cache : ℕ → D) (lh : List ℕ) (k : Disk D)
      → k.head ≡ lh
      → Logged cache lh 0 k.slots
      → (b : ℕ) → recovered k b ≡ overlay cache lh k.home b
  recovered-Logged cache lh k e l b =
      ap (λ h. h b) (recovered_lem k ∙ ap (λ h. (run (install_trans 0 h k) k).home) e)
      ∙ install_home cache lh 0 k l b

  -- A slot that the loop has passed stays.
  slots_below :
      (cache : ℕ → D) (bs : List ℕ) (tail j : ℕ) (k : Disk D)
      → j < tail
      → (run (write_log cache tail bs) k).slots j ≡ k.slots j
  unfolding run write_log
  slots_below cache [] tail j k h = refl
  slots_below cache (b ∷ bs) tail j k h =
      slots_below cache bs (tail + 1) j _ (omega arith) ∙ ground arith

  pub write_log_rest :
      (cache : ℕ → D) (bs : List ℕ) (tail : ℕ) (k : Disk D)
      → ((run (write_log cache tail bs) k).head ≡ k.head)
        × ((run (write_log cache tail bs) k).home ≡ k.home)
  unfolding run write_log
  write_log_rest cache [] tail k = (refl, refl)
  write_log_rest cache (b ∷ bs) tail k =
      write_log_rest cache bs (tail + 1) (apply (to_slot tail (cache b)) k)

  pub write_log-Logged :
      (cache : ℕ → D) (bs : List ℕ) (tail : ℕ) (k : Disk D)
      → Logged cache bs tail (run (write_log cache tail bs) k).slots
  unfolding run write_log
  write_log-Logged cache [] tail k = tt
  write_log-Logged cache (b ∷ bs) tail k = (
    slots_below cache bs (tail + 1) tail _ (omega arith) ∙ ground arith,
    write_log-Logged cache bs (tail + 1) _,
  )

  pub write_log-length :
      (cache : ℕ → D) (bs : List ℕ) (tail : ℕ) → length (write_log cache tail bs) ≡ length bs
  unfolding write_log
  write_log-length cache [] tail = refl
  write_log-length cache (b ∷ bs) tail = ap suc (write_log-length cache bs (tail + 1))
