-- ===== src/Log/Crash.antt =====
-- A crash at any point of `commit` loses nothing that was committed.
use operating_systems_work.Base.{
  ℕ, ◌+◌, ◌<◌, ◌≡◌, refl, ap, ◌∙◌, Bool, true, false, ◌⊎◌, inl, inr, List, [], ◌∷◌, ◌++◌,
  if◌then◌else◌, arith, length,
}
use operating_systems_work.Log.{
  Disk, Write, to_head, apply, run, write_log, install_trans, write_head, commit,
}
use operating_systems_work.Log.Prefix.{
  crash, Always, Always-append, Always-crash, Always-last, crash-append,
}
use operating_systems_work.Log.Install.{
  holds, overlay, recovered, Logged, Outside, install_home, recovered_clean, recovered-Logged,
  write_log_rest, write_log-Logged, write_log-length,
}

module _ {D : Type 0} where
  module _ (cache : ℕ → D) (lh : List ℕ) (home : ℕ → D) where
    -- Recovery gives the blocks before the transaction, or those after it.
    abbrev pub AllOrNothing : Disk D → Type 0
    AllOrNothing k =
        ((b : ℕ) → recovered k b ≡ home b) ⊎ ((b : ℕ) → recovered k b ≡ overlay cache lh home b)

    safe_before : (k : Disk D) → k.head ≡ [] → k.home ≡ home → AllOrNothing k
    safe_before k e f = inl (λ b. ap (λ h. h b) (recovered_clean k e ∙ f))

    -- The transaction is in the log, and home blocks of it may have been written.
    record Committed (k : Disk D) : Type 0 where
      header : k.head ≡ lh
      body : Logged cache lh 0 k.slots
      outside : Outside lh home k.home

    logging_safe :
        (bs : List ℕ) (tail : ℕ) (k : Disk D)
        → k.head ≡ []
        → k.home ≡ home
        → Always AllOrNothing (write_log cache tail bs) k
    unfolding write_log
    logging_safe [] tail k e f = safe_before k e f
    logging_safe (b ∷ bs) tail k e f = (safe_before k e f, logging_safe bs (tail + 1) _ e f)

    installing :
        (bs : List ℕ) (tail : ℕ) (k : Disk D)
        → Committed k
        → ((b : ℕ) → holds b bs ≡ true → holds b lh ≡ true)
        → Always Committed (install_trans tail bs k) k
    unfolding install_trans
    installing [] tail k c s = c
    installing (b ∷ bs) tail k c s = (
      c,
      installing bs (tail + 1) _
          (record {
            header = c.header;
            body = c.body;
            outside = λ x h. ground (arith, c.outside x h, s x);
          })
          (λ x h. s x (ground arith)),
    )

module _ {D : Type 0} (cache : ℕ → D) (lh : List ℕ) (k : Disk D) where
  -- The disk once the log's data blocks are written, once the header is, and once all is home.
  abbrev logged : Disk D
  logged = run (write_log cache 0 lh) k

  abbrev committed : Disk D
  committed = apply (to_head lh) logged

  abbrev installed : Disk D
  installed = run (install_trans 0 lh committed) committed

  committed_lem : Committed cache lh k.home committed
  committed_lem = record {
    header = refl;
    body = write_log-Logged cache lh 0 k;
    outside = λ b h. ap (λ f. f b) (write_log_rest cache lh 0 k).1;
  }

  installed_home : (b : ℕ) → installed.home b ≡ overlay cache lh k.home b
  installed_home b =
      install_home cache lh 0 committed (write_log-Logged cache lh 0 k) b
      ∙ ap (λ f. overlay cache lh f b) (write_log_rest cache lh 0 k).1

  -- The writes from the header on.
  abbrev late : List (Write D)
  late = install_trans 0 lh committed ++ write_head []

  -- Recovery gives the blocks after the transaction.
  abbrev pub Durable : Disk D → Type 0
  Durable d = (b : ℕ) → recovered d b ≡ overlay cache lh k.home b

  Always-map :
      (P Q : Disk D → Type 0)
      → ((d : Disk D) → P d → Q d)
      → (ws : List (Write D)) (d : Disk D) → Always P ws d
      → Always Q ws d
  Always-map P Q f [] d h = f d h
  Always-map P Q f (w ∷ ws) d h = (f d h.0, Always-map P Q f ws (apply w d) h.1)

  Committed-Durable : (d : Disk D) → Committed cache lh k.home d → Durable d
  Committed-Durable d c b = recovered-Logged cache lh d c.header c.body b ∙ pick (holds b lh) refl
    where
      pick :
          (h : Bool)
          → holds b lh ≡ h
          → (if h then cache b else d.home b) ≡ (if h then cache b else k.home b)
      pick true e = refl
      pick false e = c.outside b e

  late-Durable : Always Durable late committed
  unfolding write_head
  late-Durable =
      Always-append Durable (install_trans 0 lh committed) (write_head []) committed
        (Always-map (Committed cache lh k.home) Durable Committed-Durable
          (install_trans 0 lh committed) committed
          (installing cache lh k.home lh 0 committed committed_lem (λ b h. h)))
        (
          Always-last Durable (install_trans 0 lh committed) committed (
              Always-map (Committed cache lh k.home) Durable Committed-Durable
                (install_trans 0 lh committed) committed
                (installing cache lh k.home lh 0 committed committed_lem (λ b h. h))),
          λ b. ap (λ h. h b) (recovered_clean _ refl) ∙ installed_home b,
        )

module _ {D : Type 0} (cache : ℕ → D) where
  -- Whatever the number of its writes that reach the disk before a crash, `commit` from a disk
  -- with an empty log leaves one on which recovery gives either all the home blocks as they were
  -- before the transaction, or all of them with the transaction's blocks as in the cache.
  pub commit_atomic :
      (lh : List ℕ) (k : Disk D)
      → k.head ≡ []
      → (n : ℕ) → AllOrNothing cache lh k.home (crash n (commit cache lh k) k)
  unfolding commit write_head run
  commit_atomic [] k e n =
      Always-crash (AllOrNothing cache [] k.home) [] k (safe_before cache [] k.home k e refl) n
  commit_atomic (b ∷ bs) k e n =
      Always-crash P (commit cache (b ∷ bs) k) k
        (Always-append P (write_log cache 0 (b ∷ bs)) _ k before (safe, after)) n
    where
      P : Disk D → Type 0
      P = AllOrNothing cache (b ∷ bs) k.home

      before : Always P (write_log cache 0 (b ∷ bs)) k
      before = logging_safe cache (b ∷ bs) k.home (b ∷ bs) 0 k e refl

      safe : P (logged cache (b ∷ bs) k)
      safe = Always-last P (write_log cache 0 (b ∷ bs)) k before

      after : Always P (late cache (b ∷ bs) k) (committed cache (b ∷ bs) k)
      after =
          Always-map cache (b ∷ bs) k (Durable cache (b ∷ bs) k) P (λ d h. inr h) _ _
            (late-Durable cache (b ∷ bs) k)

  -- From the write of the header on, which is the write after those of the log's data blocks,
  -- recovery gives the home blocks with the transaction's blocks as in the cache.
  pub commit_durable :
      (lh : List ℕ) (k : Disk D) (n : ℕ)
      → k.head ≡ []
      → length lh < n
      → (b : ℕ) → recovered (crash n (commit cache lh k) k) b ≡ overlay cache lh k.home b
  unfolding commit write_head run
  commit_durable [] k n e l =
      Always-crash (Durable cache [] k) [] k (λ b. ap (λ h. h b) (recovered_clean k e)) n
  commit_durable (c ∷ cs) k n e l =
      crash-append (Durable cache (c ∷ cs) k) (write_log cache 0 (c ∷ cs)) _ k n
        (rw (write_log-length cache (c ∷ cs) 0) l)
        (λ m.
          Always-crash (Durable cache (c ∷ cs) k) (late cache (c ∷ cs) k)
            (committed cache (c ∷ cs) k) (late-Durable cache (c ∷ cs) k) m)
