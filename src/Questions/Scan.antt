-- ===== src/Questions/Scan.antt =====
-- The loop of `handler_redis_topg` in crates/qa-svc/src/core/question.rs ends when the cursor of HSCAN
-- does.
use qa_sys.Prelude.Int.{ℤ, pos}
use qa_sys.World.{Externals, AnyError, World, reach, message, Repo}
use qa_sys.Prelude.{
  Result, ℕ, Option, String, List, ◌≡◌, ok, ◌⊎◌, some, ◌<◌, err, continue-ok, none, pure, ap, arith,
  continue, ◌==◌, subst, suc, map_err-ok, zero, Bool, inl, inr, refl,
}
use qa_sys.Questions
use qa_sys.Prelude.{true, false, ==_iff}

-- How far a cursor still is from the end: for a hash that is not resized, each reply of HSCAN is the
-- cursor 0 or one that is nearer to the end.
abbrev pub IsNearer : {R : Type 0} → Externals R → (ℕ → ℕ) → Type 0
IsNearer x distance =
    (r : _) (key : String) (cursor next : ℕ) (fields : List (String × ℤ))
    → x.redis_hscan r key cursor ≡ ok (next, fields)
    → (next ≡ 0) ⊎ (distance next < distance cursor)

-- The loop ended: with the cursor 0, or with an error.
abbrev pub IsOver : Result AnyError (Option ℤ) → Type 0
IsOver (ok none) = ⊥
IsOver (ok (some n)) = n ≡ pos 0
IsOver (err e) = Unit

-- The cursor of a page, where the scan went well.
abbrev cursor_of : {R : Type 0} → Result AnyError ℕ × World R → ℕ
cursor_of (ok n, w) = n
cursor_of (err e, w) = 0

module _ {R : Type 0} (x : Externals R) (distance : ℕ → ℕ) (nearer : IsNearer x distance) where
  scanned_cursor :
      (kind : String) (cursor : ℕ) (page : ℕ × List (String × ℤ)) (w v : World R)
      → Questions.scanned x kind cursor w ≡ (ok page, v)
      → (page.0 ≡ 0) ⊎ (distance page.0 < distance cursor)
  scanned_cursor kind cursor page w v h =
      nearer w.redis (Questions.get_hash_key kind) cursor page.0 page.1 (
        ap (λ o. o.0)
          (map_err-ok message (x.redis_hscan w.redis (Questions.get_hash_key kind) cursor, w) page v
            h))

  -- One round answers the cursor of HSCAN.
  reids_cmd_cursor :
      (kind : String) (cursor next : ℕ) (w v : World R)
      → Questions.reids_cmd x kind cursor w ≡ (ok next, v)
      → (next ≡ 0) ⊎ (distance next < distance cursor)
  unfolding Questions.reids_cmd
  reids_cmd_cursor kind cursor next w v h =
      let (_, u, _, h') = continue-ok _ (reach message w) next v h in
      let (_, u', _, h'') = continue-ok _ (reach message u) next v h' in
      let (page, u'', got, rest) = continue-ok _ (Questions.scanned x kind cursor u') next v h'' in
      let (_, u3, _, fin) =
        continue-ok (λ _. pure page.0) (Questions.move_counts x kind page.1 u'') next v rest in
      subst (λ n. (n ≡ 0) ⊎ (distance n < distance cursor)) (ap cursor_of fin)
        (scanned_cursor kind cursor page u' u'' got)

  -- What follows a round: the end, or the next one.
  abbrev looped : ℕ → String → ℕ → Bool → Repo R (Option ℤ)
  looped fuel kind next true = pure (some (pos 0))
  looped fuel kind next false = Questions.scan_loop x fuel kind next

  after_cursor :
      (fuel : ℕ) (kind : String) (next : ℕ) (v : World R) (b : Bool)
      → (b ≡ false → IsOver (Questions.scan_loop x fuel kind next v).0)
      → IsOver (looped fuel kind next b v).0
  after_cursor fuel kind next v true rest = refl
  after_cursor fuel kind next v false rest = rest refl

  next_round :
      (fuel : ℕ) (kind : String) (cursor : ℕ) (o : Result AnyError ℕ × World R)
      → ((next : ℕ) (v : World R)
          → o ≡ (ok next, v)
          → (next ≡ 0) ⊎ (distance next < distance cursor))
      → ((next : ℕ) (v : World R)
          → distance next < distance cursor
          → IsOver (Questions.scan_loop x fuel kind next v).0)
      → IsOver (continue (λ next. looped fuel kind next (next == 0)) o).0
  next_round fuel kind cursor (err e, v) step rest = tt
  next_round fuel kind cursor (ok next, v) step rest =
      after_cursor fuel kind next v (next == 0) λ more. elim (step next v refl) [
        | inl done ↦ absurd (ground (arith, ==_iff next 0))
        | inr less ↦ rest next v less
      ]

  -- If every reply of HSCAN is the cursor 0 or a cursor nearer to the end by some measure, the
  -- loop that moves read counts ends by itself, with the result 0 or an error of a call, within
  -- one round more than the measure of its cursor, whatever the calls to the servers do.
  pub scan_loop-IsOver :
      (fuel : ℕ) (kind : String) (cursor : ℕ) (w : World R)
      → distance cursor < fuel
      → IsOver (Questions.scan_loop x fuel kind cursor w).0
  unfolding Questions.scan_loop
  scan_loop-IsOver zero kind cursor w h = absurd (omega (arith, h))
  scan_loop-IsOver (suc fuel) kind cursor w h =
      next_round fuel kind cursor (Questions.reids_cmd x kind cursor w)
        (λ next v e. reids_cmd_cursor kind cursor next w v e)
        λ next v less. scan_loop-IsOver fuel kind next v (omega (arith, h, less))
