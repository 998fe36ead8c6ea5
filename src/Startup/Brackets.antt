-- ===== src/Startup/Brackets.antt =====
-- Resources that are acquired and released in a nested order, in the runs of
-- internal/outboxer/run.go.
use outboxer.Prelude.{ℕ, zero, suc, map, Bool, true, false, List, [], ◌∷◌, ◌++◌, ◌≡◌, string_eq}
use outboxer.Config.{take}
use outboxer.Startup.{Resource, Action, acquire, release}

abbrev pub is_work : Action → Bool
is_work (acquire r) = false
is_work (release r) = false
is_work _ = true

-- Actions that start with some resources held and end with others: each is acquired, and released
-- only while it is the last one that is held.
pub data Brackets : List Resource → List Action → List Resource → Type 0 where
  done : (held : List Resource) → Brackets held [] held
  acquires :
      (r : Resource) (held after : List Resource) (actions : List Action)
      → Brackets (r ∷ held) actions after
      → Brackets held (acquire r ∷ actions) after
  releases :
      (r : Resource) (held after : List Resource) (actions : List Action)
      → Brackets held actions after
      → Brackets (r ∷ held) (release r ∷ actions) after
  works :
      (a : Action) (held after : List Resource) (actions : List Action)
      → is_work a ≡ true
      → Brackets held actions after
      → Brackets held (a ∷ actions) after

pub Brackets-append :
    (held middle after : List Resource) (first later : List Action)
    → Brackets held first middle
    → Brackets middle later after
    → Brackets held (first ++ later) after
Brackets-append held middle after first later (done h) b = b
Brackets-append held middle after first later (acquires r h m actions a) b =
    acquires r held after (actions ++ later)
      (Brackets-append (r ∷ held) middle after actions later a b)
Brackets-append held middle after first later (releases r h m actions a) b =
    releases r h after (actions ++ later) (Brackets-append h middle after actions later a b)
Brackets-append held middle after first later (works w h m actions is a) b =
    works w held after (actions ++ later) is (Brackets-append held middle after actions later a b)

-- Resources that are held besides do not matter.
pub Brackets-besides :
    (held after base : List Resource) (actions : List Action)
    → Brackets held actions after
    → Brackets (held ++ base) actions (after ++ base)
Brackets-besides held after base actions (done h) = done (h ++ base)
Brackets-besides held after base actions (acquires r h m as' b) =
    acquires r (held ++ base) (after ++ base) as' (Brackets-besides (r ∷ held) after base as' b)
Brackets-besides held after base actions (releases r h m as' b) =
    releases r (h ++ base) (after ++ base) as' (Brackets-besides h after base as' b)
Brackets-besides held after base actions (works w h m as' is b) =
    works w (held ++ base) (after ++ base) as' is (Brackets-besides held after base as' b)

-- A run that is cut off holds something.
pub Brackets-take :
    (n : ℕ) (held after : List Resource) (actions : List Action)
    → Brackets held actions after
    → (middle : List Resource) × Brackets held (take n actions) middle
unfolding take
Brackets-take zero held after actions b = (held, done held)
Brackets-take (suc n) held after actions (done h) = (held, done held)
Brackets-take (suc n) held after actions (acquires r h m as' b) =
    let (middle, b') = Brackets-take n (r ∷ held) after as' b in
    (middle, acquires r held middle (take n as') b')
Brackets-take (suc n) held after actions (releases r h m as' b) =
    let (middle, b') = Brackets-take n h after as' b in
    (middle, releases r h middle (take n as') b')
Brackets-take (suc n) held after actions (works w h m as' is b) =
    let (middle, b') = Brackets-take n held after as' b in
    (middle, works w held middle (take n as') is b')

-- All that is held is released, the last one first.
pub Brackets-unwind : (rs base : List Resource) → Brackets (rs ++ base) (map release rs) base
Brackets-unwind [] base = done base
Brackets-unwind (r ∷ rs) base =
    releases r (rs ++ base) base (map release rs) (Brackets-unwind rs base)
