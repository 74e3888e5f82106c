-- ===== src/Log/Recover.antt =====
-- A crash during recovery.
use operating_systems_work.Base.{
  ℕ, ◌+◌, ◌≡◌, refl, sym, ap, ◌∙◌, true, false, ◌⊎◌, inl, inr, List, [], ◌∷◌, ◌==◌, arith,
  Bool-cases,
}
use operating_systems_work.Log.{
  Disk, to_head, update, apply, run, install_trans, write_head, recover_from_log,
}
use operating_systems_work.Log.Prefix.{crash, Always, Always-append, Always-crash, Always-last}
use operating_systems_work.Log.Install.{holds, recovered, Outside, recovered_lem, recovered_clean}

module _ {D : Type 0} where
  -- The result depends on the log, and on the home blocks outside it only.
  install_agree :
      (bs : List ℕ) (tail : ℕ) (d d' : Disk D)
      → d.slots ≡ d'.slots
      → Outside bs d'.home d.home
      → (b : ℕ)
      → (run (install_trans tail bs d) d).home b ≡ (run (install_trans tail bs d') d').home b
  unfolding run install_trans
  install_agree [] tail d d' s h = λ b. h b refl
  install_agree (c ∷ cs) tail d d' s h =
      install_agree cs (tail + 1) _ _ s (λ b o. next b o (Bool-cases (c == b)))
    where
      next :
          (b : ℕ)
          → holds b cs ≡ false
          → ((c == b) ≡ true) ⊎ ((c == b) ≡ false)
          → update d.home c (d.slots tail) b ≡ update d'.home c (d'.slots tail) b
      next b o (inl e) = rw e (ap (λ f. f tail) s)
      next b o (inr e) = rw e (h b (ground arith))

  module _ (k : Disk D) where
    -- Some of the logged blocks have been copied home.
    record Underway (d : Disk D) : Type 0 where
      header : d.head ≡ k.head
      body : d.slots ≡ k.slots
      outside : Outside k.head k.home d.home

    abbrev Same : Disk D → Type 0
    Same d = (b : ℕ) → recovered d b ≡ recovered k b

    Underway-Same : (d : Disk D) → Underway d → Same d
    Underway-Same d u b =
        ap (λ f. f b) (recovered_lem d ∙ ap (λ h. (run (install_trans 0 h d) d).home) u.header)
        ∙ install_agree k.head 0 d k u.body u.outside b
        ∙ sym (ap (λ f. f b) (recovered_lem k))

    underway :
        (bs : List ℕ) (tail : ℕ) (d : Disk D)
        → Underway d
        → ((b : ℕ) → holds b bs ≡ true → holds b k.head ≡ true)
        → Always Same (install_trans tail bs d) d
    unfolding install_trans
    underway [] tail d u s = Underway-Same d u
    underway (c ∷ cs) tail d u s = (
      Underway-Same d u,
      underway cs (tail + 1) _
          (record {
            header = u.header;
            body = u.body;
            outside = λ x h. ground (arith, u.outside x h, s x);
          })
          (λ x h. s x (ground arith)),
    )

    recovering : Always Same (recover_from_log k) k
    unfolding recover_from_log write_head
    recovering =
        Always-append Same (install_trans 0 k.head k) _ k before (Always-last Same _ k before, done)
      where
        before : Always Same (install_trans 0 k.head k) k
        before =
            underway k.head 0 k (record { header = refl; body = refl; outside = λ b h. refl })
              (λ b h. h)

        done : Same (apply (to_head []) (run (install_trans 0 k.head k) k))
        done b = ap (λ f. f b) (recovered_clean _ refl ∙ sym (recovered_lem k))

-- A crash during recovery, at any of its writes, does no harm: recovery run again gives the home
-- blocks that the first would have given.
pub recover_again :
    {D : Type 0} (k : Disk D) (n : ℕ) (b : ℕ)
    → recovered (crash n (recover_from_log k) k) b ≡ recovered k b
recover_again k n b = Always-crash (Same k) (recover_from_log k) k (recovering k) n b
