-- ===== src/Backlog/Share.antt =====
-- The share of a route: at least one event, and no more when there are more routes.
use native.Mathlib.Nat.{div-lt_iff_lt-mul, lt-div-mul-add, suc-mul, div-eq_of_lt}
use outboxer.Prelude.{ℕ, zero, suc, ◌+◌, ◌*◌, ◌-◌, ◌/◌, ◌≤◌, ◌<◌, ◌≡◌, sym, subst, arith}
use outboxer.Prelude.Int.{ℤ, pos, negsuc, ◌+ℤ◌, pos_part}
use outboxer.Backlog.{route_share}

pub one-le-route_share : (target : ℤ) (routes : ℕ) → 1 ≤ route_share target routes
unfolding route_share
one-le-route_share target routes = omega arith

times_mono : (q n m : ℕ) → n ≤ m → q * n ≤ q * m
times_mono zero n m h = omega arith
times_mono (suc q) n m h = omega (arith, times_mono q n m h, h, suc-mul q n, suc-mul q m)

-- Rounded up, k / m is at most k / n where n is at most m.
ceil_mono : (k n m : ℕ) → n ≤ m → (k + m) / suc m ≤ (k + n) / suc n
ceil_mono k n m h =
    let q = (k + n) / suc n in
    let low : k + n < q * suc n + suc n = lt-div-mul-add (omega arith) in
    let wide : q * suc n ≤ q * suc m = times_mono q (suc n) (suc m) (omega (arith, h)) in
    let all : k + m < suc q * suc m = omega (arith, low, wide, suc-mul q (suc m)) in
    let up : (k + m) / suc m < suc q =
      (div-lt_iff_lt-mul {k = suc m} {x = k + m} {y = suc q} (omega arith)).1 all in
    omega (arith, up)

sum_value : (t n : ℕ) → pos_part (pos t +ℤ pos (suc n - 1)) ≡ t + n
unfolding ◌+ℤ◌
sum_value t n = ground arith

small_sum : (k n : ℕ) → pos_part (negsuc k +ℤ pos (suc n - 1)) / suc n ≡ 0
unfolding ◌+ℤ◌
small_sum k n = div-eq_of_lt (ground arith)

pub route_share_mono :
    (target : ℤ) (n m : ℕ) → 1 ≤ n → n ≤ m → route_share target m ≤ route_share target n
unfolding route_share ◌+ℤ◌
route_share_mono target zero m h k = absurd (omega (arith, h))
route_share_mono target (suc n) zero h k = absurd (omega (arith, k))
route_share_mono (pos t) (suc n) (suc m) h k = omega (
  arith,
  subst (λ x. x / suc m ≤ pos_part (pos t +ℤ pos (suc n - 1)) / suc n) (sym (sum_value t m))
      (subst (λ x. (t + m) / suc m ≤ x / suc n) (sym (sum_value t n))
        (ceil_mono t n m (omega (arith, k)))),
)
route_share_mono (negsuc t) (suc n) (suc m) h k = omega (arith, small_sum t n, small_sum t m)
