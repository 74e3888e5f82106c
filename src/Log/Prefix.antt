-- ===== src/Log/Prefix.antt =====
-- Lists of disk writes, cut off by a crash.
use operating_systems_work.Base.{
  ℕ, zero, suc, ◌≡◌, refl, List, [], ◌∷◌, ◌++◌, take, length, ◌<◌, arith,
}
use operating_systems_work.Log.{Disk, Write, apply, run}

module _ {D : Type 0} where
  pub run-append : (us vs : List (Write D)) (k : Disk D) → run (us ++ vs) k ≡ run vs (run us k)
  unfolding run
  run-append [] vs k = refl
  run-append (u ∷ us) vs k = run-append us vs (apply u k)

  -- The disk after the first `n` of the writes: a crash before the next one.
  abbrev pub crash : ℕ → List (Write D) → Disk D → Disk D
  crash n ws k = run (take n ws) k

  module _ (P : Disk D → Type 0) where
    -- The property holds before the writes, and after each of them.
    abbrev pub Always : List (Write D) → Disk D → Type 0
    Always [] k = P k
    Always (w ∷ ws) k = P k × Always ws (apply w k)

    pub Always-append :
        (us vs : List (Write D)) (k : Disk D)
        → Always us k
        → Always vs (run us k)
        → Always (us ++ vs) k
    unfolding run
    Always-append [] vs k h g = g
    Always-append (u ∷ us) vs k h g = (h.0, Always-append us vs (apply u k) h.1 g)

    pub Always-crash : (ws : List (Write D)) (k : Disk D) → Always ws k → (n : ℕ) → P (crash n ws k)
    unfolding run
    Always-crash [] k h zero = h
    Always-crash [] k h (suc n) = h
    Always-crash (w ∷ ws) k h zero = h.0
    Always-crash (w ∷ ws) k h (suc n) = Always-crash ws (apply w k) h.1 n

    pub Always-last : (ws : List (Write D)) (k : Disk D) → Always ws k → P (run ws k)
    unfolding run
    Always-last [] k h = h
    Always-last (w ∷ ws) k h = Always-last ws (apply w k) h.1

    -- A crash after more writes than those of `us` is one after a write of `vs`.
    pub crash-append :
        (us vs : List (Write D)) (k : Disk D) (n : ℕ)
        → length us < n
        → ((m : ℕ) → P (crash (suc m) vs (run us k)))
        → P (crash n (us ++ vs) k)
    unfolding run
    crash-append [] vs k zero l h = elim l [ ]
    crash-append [] vs k (suc n) l h = h n
    crash-append (u ∷ us) vs k zero l h = elim l [ ]
    crash-append (u ∷ us) vs k (suc n) l h = crash-append us vs (apply u k) n (omega arith) h
