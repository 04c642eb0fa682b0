-- ===== src/World/Keeps.antt =====
-- Properties of the world that an operation keeps, whether it ends well or with an error.
use qa_sys.Prelude.{
  List, Action, Result, Option, continue, String, ok, err, ◌∷◌, some, [], none, Bool, map_err_of,
  map_err, ensure, true, false, pure,
}
use qa_sys.World.{
  World, take_fault, reach, Db, transaction, AnyError, close_transaction, Repo, roll_back,
  sql_failed,
}

abbrev pub Keeps : {S E A : Type 0} → (S → Type 0) → Action S E A → Type 0
Keeps P m = (s : _) → P s → P (m s).1

module _ {S E A B : Type 0} {P : S → Type 0} where
  continue-Leads :
      (Q : S → Type 0) (k : A → Action S E B) (o : Result E A × S)
      → ((s : S) → P s → Q s)
      → ((a : A) (s : S) → P s → Q (k a s).1)
      → P o.1
      → Q (continue k o).1
  continue-Leads Q k (ok a, s) idle h p = h a s p
  continue-Leads Q k (err e, s) idle h p = idle s p

  continue-Keeps :
      (k : A → Action S E B) (o : Result E A × S)
      → ((a : A) → Keeps P (k a))
      → P o.1
      → P (continue k o).1
  continue-Keeps k (ok a, w) h p = h a w p
  continue-Keeps k (err e, w) h p = p

  -- What `k` leads to from `P`, after an `m` that keeps it.
  pub bind-Leads :
      (Q : S → Type 0) (m : Action S E A) (k : A → Action S E B)
      → Keeps P m
      → ((s : S) → P s → Q s)
      → ((a : A) (s : S) → P s → Q (k a s).1)
      → (s : S) → P s
      → Q (continue k (m s)).1
  bind-Leads Q m k hm idle hk s p = continue-Leads Q k (m s) idle hk (hm s p)

  -- The rule for `m >>= k`.
  pub bind-Keeps :
      (m : Action S E A) (k : A → Action S E B)
      → Keeps P m
      → ((a : A) → Keeps P (k a))
      → (w : S) → P w
      → P (continue k (m w)).1
  bind-Keeps m k hm hk w p = continue-Keeps k (m w) hk (hm w p)

module _ {R E : Type 0} (P : World R → Type 0)
    (calm : (w : World R) (fs : List (Option String)) → P w → P (record w { faults = fs })) where
  take_fault-Keeps :
      (wrap : String → E) (fs : List (Option String)) (w : World R)
      → P w
      → P (take_fault wrap fs w).1
  take_fault-Keeps wrap [] w p = p
  take_fault-Keeps wrap (none ∷ fs) w p = calm w fs p
  take_fault-Keeps wrap (some t ∷ fs) w p = calm w fs p

  -- A call to a server changes the list of outcomes only.
  pub reach-Keeps : (wrap : String → E) → Keeps P (reach wrap)
  unfolding reach
  reach-Keeps wrap w p = take_fault-Keeps wrap w.faults w p

module _ {R : Type 0} (P : World R → Type 0)
    (calm : (w : World R) (fs : List (Option String)) → P w → P (record w { faults = fs }))
    (apart : (w : World R) (d : Db) → P w → P (record w { db = d })) where
  close_transaction-Keeps :
      {A : Type 0} (d : Db) (o : Result AnyError A × World R) → P o.1 → P (close_transaction d o).1
  close_transaction-Keeps d (ok a, w) p = p
  close_transaction-Keeps d (err e, w) p = apart w (roll_back d w.db) p

  -- A transaction keeps what its body keeps and what says nothing of the tables.
  pub transaction-Keeps : {A : Type 0} (body : Repo R A) → Keeps P body → Keeps P (transaction body)
  unfolding transaction
  transaction-Keeps body h =
      bind-Keeps {P = P} (reach sql_failed) _ (reach-Keeps P calm sql_failed) λ _ w p.
        continue-Keeps _ (close_transaction w.db _) (λ a. replied a)
          (close_transaction-Keeps w.db _ (bind-Keeps {P = P} body _ h (λ a. replied a) w p))
    where
      replied :
          {A : Type 0} (a : A)
          → Keeps {S = World R} {E = AnyError} P (λ w. continue (λ _. pure a) (reach sql_failed w))
      replied a =
          bind-Keeps {P = P} (reach sql_failed) _ (reach-Keeps P calm sql_failed) (λ _ v q. q)

module _ {S : Type 0} (P : S → Type 0) where
  map_err_of-Keeps :
      {E F A : Type 0} (f : E → F) (o : Result E A × S) → P o.1 → P (map_err_of f o).1
  map_err_of-Keeps f (ok a, w) p = p
  map_err_of-Keeps f (err e, w) p = p

  pub map_err-Keeps :
      {E F A : Type 0} (f : E → F) (m : Action S E A) → Keeps P m → Keeps P (map_err f m)
  map_err-Keeps f m h w p = map_err_of-Keeps f (m w) (h w p)

  ensure_of-Keeps : {E : Type 0} (b : Bool) (e : E) (w : S) → P w → P (ensure b e w).1
  ensure_of-Keeps true e w p = p
  ensure_of-Keeps false e w p = p

  pub ensure-Keeps : {E : Type 0} (b : Bool) (e : E) → Keeps P (ensure b e)
  ensure-Keeps b e w p = ensure_of-Keeps b e w p

  reply_of-Keeps :
      {E A B : Type 0} (k : A → B) (o : Result E A × S) → P o.1 → P (continue (λ a. pure (k a)) o).1
  reply_of-Keeps k (ok a, w) p = p
  reply_of-Keeps k (err e, w) p = p

  -- What is made of a result, well or with an error, is not the state's concern.
  pub reply-Keeps :
      {E F A B : Type 0} (f : E → F) (k : A → B) (o : Result E A × S)
      → P o.1
      → P (continue (λ a. pure (k a)) (map_err_of f o)).1
  reply-Keeps f k o p = reply_of-Keeps k (map_err_of f o) (map_err_of-Keeps f o p)
