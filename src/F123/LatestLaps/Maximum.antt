-- ===== src/F123/LatestLaps/Maximum.antt =====
-- `LatestLapData` over a history of calls, against the largest lap number that was set.
use Prim.Native.Nat.{max}
use formulatel.Common.{
  ℕ, ◌≡◌, refl, sym, ap, ◌∙◌, inl, inr, Bool, ◌&&◌, List, [], ◌∷◌, bytes_eq, bytes_eq_iff,
  bytes_eq_refl, ◌==◌, if◌then◌else◌, Bool-cases, arith,
}
use mathlib.Core.List.{Perm, Permᴰ}
use mathlib.Core.Logic.{∥∥₁_elim}
use native.Mathlib.Nat.{ℕ_set}
use formulatel.Text.{Text, decimal}
use formulatel.Text.Decimal.{Avoids, join_injective, decimal-Avoids, decimal_injective}
use formulatel.F123.LatestLaps.{LatestLapData, lookup, insert, key, get, set}

lookup-insert :
    (k j : Text) (v : ℕ) (m : List (Text × ℕ))
    → lookup j (insert k v m) ≡ (if bytes_eq k j then v else lookup j m)
unfolding lookup insert
lookup-insert k j v [] = refl
lookup-insert k j v ((i, w) ∷ m) =
    ground (arith, bytes_eq_iff k j, bytes_eq_iff i k, bytes_eq_iff i j, lookup-insert k j v m)

-- The same car of the same session.
unfoldable pub same : Text → Text → Text → Text → Bool
same session_id user_id session user = bytes_eq session_id session && bytes_eq user_id user

key-eq-same :
    (s u t v : Text) → Avoids 46 s → Avoids 46 t → bytes_eq (key s u) (key t v) ≡ same s u t v
unfolding key same
key-eq-same s u t v h k = elim (Bool-cases (bytes_eq (key s u) (key t v))) [
  | inl e ↦
      let (p, q) = join_injective 46 s u t v h k ((bytes_eq_iff (key s u) (key t v)).0 e) in
      e ∙ ground (arith, bytes_eq_iff s t, bytes_eq_iff u v)
  | inr e ↦ e ∙ ground (arith, bytes_eq_iff s t, bytes_eq_iff u v, e, bytes_eq_refl (key s u))
]

-- `Set` raises the number of its own car to `n` if it was lower, and leaves every other car's.
pub get-set :
    (s u : Text) (n : ℕ) (l : LatestLapData) (t v : Text)
    → Avoids 46 s
    → Avoids 46 t
    → get t v (set s u n l).0 ≡ (if same s u t v then max (get s u l) n else get t v l)
unfolding get set
get-set s u n l t v h k = ground (
  arith,
  lookup-insert (key s u) (key t v) n l.entries,
  key-eq-same s u t v h k,
  bytes_eq_iff (key s u) (key t v),
)

-- `Set` returns what `Get` answers afterwards.
pub set_returns :
    (s u : Text) (n : ℕ) (l : LatestLapData) → (set s u n l).1 ≡ get s u (set s u n l).0
unfolding get set
set_returns s u n l = refl

pub record SetCall : Type 0 where
  pub session_id : ℕ
  pub user_id : ℕ
  pub lap_num : ℕ

-- A history of `Set` calls, with the ids as `fmt.Sprintf("%d", …)` prints them.
pub run_sets : LatestLapData → List SetCall → LatestLapData
run_sets l [] = l
run_sets l (c ∷ cs) = run_sets (set (decimal c.session_id) (decimal c.user_id) c.lap_num l).0 cs

-- The specification: the largest number that was set for this car, 0 if none was.
pub largest : ℕ → ℕ → ℕ → List SetCall → ℕ
largest best session user [] = best
largest best session user (c ∷ cs) =
    largest (if c.session_id == session && c.user_id == user then max best c.lap_num else best)
      session user cs

same-decimal :
    (s u t v : ℕ) → same (decimal s) (decimal u) (decimal t) (decimal v) ≡ (s == t && u == v)
unfolding same
same-decimal s u t v = ground (
  arith,
  bytes_eq_iff (decimal s) (decimal t),
  bytes_eq_iff (decimal u) (decimal v),
  decimal_injective s t,
  decimal_injective u v,
  bytes_eq_refl (decimal s),
  bytes_eq_refl (decimal u),
)

get-set-decimal :
    (s u n t v : ℕ) (l : LatestLapData)
    → get (decimal t) (decimal v) (set (decimal s) (decimal u) n l).0 ≡ (
        if s == t && u == v
        then max (get (decimal t) (decimal v) l) n
        else get (decimal t) (decimal v) l)
get-set-decimal s u n t v l = ground (
  arith,
  get-set (decimal s) (decimal u) n l (decimal t) (decimal v) (decimal-Avoids 46 s (omega arith))
      (decimal-Avoids 46 t (omega arith)),
  same-decimal s u t v,
)

-- After any calls of `Set`, `Get` answers the largest number that was set for the car, or what it
-- answered before if that was larger; calls for other cars do not matter.
pub run_sets-eq-largest :
    (l : LatestLapData) (cs : List SetCall) (session user : ℕ)
    → get (decimal session) (decimal user) (run_sets l cs)
      ≡ largest (get (decimal session) (decimal user) l) session user cs
unfolding run_sets largest
run_sets-eq-largest l [] session user = refl
run_sets-eq-largest l (c ∷ cs) session user =
    run_sets-eq-largest (set (decimal c.session_id) (decimal c.user_id) c.lap_num l).0 cs session
      user
    ∙ ap (λ b. largest b session user cs)
        (get-set-decimal c.session_id c.user_id c.lap_num session user l)

largest-perm :
    (session user : ℕ) {cs ds : List SetCall}
    → Permᴰ cs ds
    → (best : ℕ) → largest best session user cs ≡ largest best session user ds
unfolding largest
largest-perm session user Permᴰ.nil best = refl
largest-perm session user (Permᴰ.cons e p) best = rw e (largest-perm session user p _)
largest-perm session user (Permᴰ.swap {l = xs} e f) best =
    rw (e, f) (ap (λ b. largest b session user xs) (ground arith))
largest-perm session user (Permᴰ.trans p q) best =
    largest-perm session user p best ∙ largest-perm session user q best

-- The order of the calls does not matter: whatever order the packets come in, `Get` answers the
-- same.
pub run_sets-perm :
    (l : LatestLapData) (cs ds : List SetCall) (session user : ℕ)
    → Perm cs ds
    → get (decimal session) (decimal user) (run_sets l cs)
      ≡ get (decimal session) (decimal user) (run_sets l ds)
run_sets-perm l cs ds session user p = ∥∥₁_elim p (ℕ_set _ _) λ d.
    run_sets-eq-largest l cs session user
    ∙ largest-perm session user d (get (decimal session) (decimal user) l)
    ∙ sym (run_sets-eq-largest l ds session user)
