-- ===== src/Biryani/Last.antt =====
-- The last container never comes back from `ready_to_serve`.
use operating_systems_work.Base.{
  ℕ, ◌+◌, ◌<◌, ◌≡◌, refl, sym, ap, ◌∙◌, false, some, arith, ℕ_discrete,
}
use operating_systems_work.Biryani.Moves.{Container, TableAt, State, initial, set_at}
use operating_systems_work.Biryani.Tables.{Move, move, Reach, here, then_move}

-- The entry behind the containers is not loading, and each container has the number of the entry behind
-- it.
pub record IsBehind (s : State) : Type 0 where
  pub not_loading : (s.container s.n).load ≡ false
  pub numbers : (i : ℕ) → i < s.n → (s.container i).container_number ≡ i + 1

-- A change of one entry that leaves its number.
set-IsBehind :
    (n j : ℕ) (f : ℕ → Container) (x : Container)
    → j < n
    → x.container_number ≡ (f j).container_number
    → (f n).load ≡ false
    → ((i : ℕ) → i < n → (f i).container_number ≡ i + 1)
    → ((set_at f j x n).load ≡ false)
      × ((i : ℕ) → i < n → (set_at f j x i).container_number ≡ i + 1)
set-IsBehind n j f x h e a b = (
  ground arith,
  λ i k. elim (ℕ_discrete i j) [ yes q ↦ ground (arith, b i k) | no q ↦ ground (arith, b i k) ],
)

pub move-IsBehind : (a : Move) (s t : State) → IsBehind s → move a s ≡ some t → IsBehind t
move-IsBehind (Move.chef_starts i) s t v h = ground arith
move-IsBehind (Move.chef_loops i a b) s t v h = ground arith
move-IsBehind (Move.chef_makes i) s t v h = ground arith
move-IsBehind (Move.chef_serves i) s t v h = ground arith
move-IsBehind (Move.table_starts i) s t v h = ground (arith, set-IsBehind s.n i s.container)
move-IsBehind (Move.table_ends i) s t v h = ground arith
move-IsBehind (Move.table_gets i j) s t v h = ground arith
move-IsBehind (Move.table_leaves i) s t v h = ground arith
move-IsBehind (Move.table_offers i rand) s t v h = ground (arith, set-IsBehind s.n i s.container)
move-IsBehind (Move.table_returns i) s t v h = ground arith
move-IsBehind Move.student_comes s t v h = ground arith
move-IsBehind (Move.student_sits j) s t v h = ground (arith, set-IsBehind s.n j s.container)

pub move_n : (a : Move) (s t : State) → move a s ≡ some t → t.n ≡ s.n
move_n (Move.chef_starts i) s t h = ground arith
move_n (Move.chef_loops i a b) s t h = ground arith
move_n (Move.chef_makes i) s t h = ground arith
move_n (Move.chef_serves i) s t h = ground arith
move_n (Move.table_starts i) s t h = ground arith
move_n (Move.table_ends i) s t h = ground arith
move_n (Move.table_gets i j) s t h = ground arith
move_n (Move.table_leaves i) s t h = ground arith
move_n (Move.table_offers i rand) s t h = ground arith
move_n (Move.table_returns i) s t h = ground arith
move_n Move.student_comes s t h = ground arith
move_n (Move.student_sits j) s t h = ground arith

-- The container before the last entry stays in `ready_to_serve`.
module _ (i food : ℕ) where
  set_stays :
      (f : ℕ → TableAt) (j : ℕ) (x : TableAt)
      → f i ≡ TableAt.waiting food
      → (i ≡ j → x ≡ TableAt.waiting food)
      → set_at f j x i ≡ TableAt.waiting food
  set_stays f j x h e = ground arith

  move_stays :
      (a : Move) (s t : State)
      → IsBehind s
      → i + 1 ≡ s.n
      → s.table_at i ≡ TableAt.waiting food
      → move a s ≡ some t
      → t.table_at i ≡ TableAt.waiting food
  move_stays (Move.chef_starts j) s t v e w h = ground arith
  move_stays (Move.chef_loops j a b) s t v e w h = ground arith
  move_stays (Move.chef_makes j) s t v e w h = ground arith
  move_stays (Move.chef_serves j) s t v e w h = ground arith
  move_stays (Move.table_starts j) s t v e w h = ground (arith, set_stays s.table_at j)
  move_stays (Move.table_ends j) s t v e w h = ground (arith, set_stays s.table_at j)
  move_stays (Move.table_gets j c) s t v e w h = ground (arith, set_stays s.table_at j)
  move_stays (Move.table_leaves j) s t v e w h = ground (arith, set_stays s.table_at j)
  move_stays (Move.table_offers j rand) s t v e w h = ground (arith, set_stays s.table_at j)
  move_stays (Move.table_returns j) s t v e w h = elim (ℕ_discrete i j) [
    | no q ↦ ground (arith, set_stays s.table_at j)
    | yes q ↦
        (let g : (s.container (s.container j).container_number).load ≡ false =
            ap (λ x. (s.container x).load)
              (ap (λ x. (s.container x).container_number) (sym q) ∙ v.numbers i (omega arith) ∙ e)
            ∙ v.not_loading in
          ground arith)
  ]
  move_stays Move.student_comes s t v e w h = ground arith
  move_stays (Move.student_sits j) s t v e w h = ground arith

pub initial-IsBehind : (m n k : ℕ) → IsBehind (initial m n k)
initial-IsBehind m n k = record { not_loading = refl; numbers = λ i h. ground arith }

Reach-IsBehind : (s t : State) → IsBehind s → Reach s t → IsBehind t
Reach-IsBehind s t v here = v
Reach-IsBehind s t v (then_move {t = u} r a h) = move-IsBehind a u t (Reach-IsBehind s u v r) h

Reach-n : (s t : State) → Reach s t → t.n ≡ s.n
Reach-n s t here = refl
Reach-n s t (then_move {t = u} r a h) = move_n a u t h ∙ Reach-n s u r

Reach-stays :
    (i food : ℕ) (s t : State)
    → IsBehind s
    → i + 1 ≡ s.n
    → s.table_at i ≡ TableAt.waiting food
    → Reach s t
    → IsBehind t × (i + 1 ≡ t.n) × (t.table_at i ≡ TableAt.waiting food)
Reach-stays i food s t v e w here = (v, e, w)
Reach-stays i food s t v e w (then_move {t = u} r a h) =
    let (v', e', w') = Reach-stays i food s u v e w r in
    (move-IsBehind a u t v' h, e' ∙ sym (move_n a u t h), move_stays i food a u t v' e' w' h)

-- In every run, from the point where the last container first waits in `ready_to_serve` on, it
-- waits there for ever, with the food that it has left: it looks at the entry behind the containers,
-- which no thread sets.
pub last_container_waits :
    (m n k i food : ℕ) (s t : State)
    → i + 1 ≡ n
    → Reach (initial m n k) s
    → s.table_at i ≡ TableAt.waiting food
    → Reach s t
    → t.table_at i ≡ TableAt.waiting food
last_container_waits m n k i food s t e r w q =
    (Reach-stays i food s t (Reach-IsBehind (initial m n k) s (initial-IsBehind m n k) r)
      (e ∙ sym (Reach-n (initial m n k) s r)) w q).2
