-- ===== src/Programs/Run/History.antt =====
-- What a program has done so far, and what is open.
use wb_orders.Base.{
  ◌≡◌, refl, ap, sym, Bool, true, false, List, [], ◌∷◌, Option, none, some, Result, ok, err, ◌⊎◌,
  inl, inr,
}
use wb_orders.Base.Text.{Bytes, lit}
use wb_orders.Config.{load_common}
use wb_orders.Programs
use wb_orders.Programs.{
  bad_setting, database_failed, batch_too_long, rebalance_timeout, worst_case, WorkerSettings,
  read_worker, worker_config, start_worker, start_publisher,
}
use wb_orders.Programs.Clients.{Opening, no_pool, closed_again, open_pool}
use wb_orders.Programs.Frames.{
  Resource, signals, pool, consumer_client, producer, run_context, Act, opened, closed, launched,
  canceled, Frame, ◌>>=◌, go_on, lift, acquire, note, leave,
}
use wb_orders.Programs.Run.{
  Launch, serves, works, publishes, Error, refused, client_failed, Outside, Part, opened_as,
  acquire_client, launch,
}

-- The resources that are open when the goroutines start, the latest first.
abbrev pub needs : Launch → List Resource
needs (serves common) = pool ∷ signals ∷ []
needs (works config s) = run_context ∷ producer ∷ consumer_client ∷ pool ∷ signals ∷ []
needs (publishes config) = run_context ∷ producer ∷ pool ∷ signals ∷ []

-- The settings that are started have been read from the environment and have passed their test.
abbrev pub Accepts : Outside → Launch → Type 0
Accepts o (serves common) = load_common o.getenv (lit "wb-orders-api") (lit ":8080") ≡ ok common
Accepts o (works config s) =
    (start_worker o.getenv o.durations none ≡ ok s) × (config ≡ worker_config o.getenv s)
Accepts o (publishes config) = start_publisher o.getenv o.durations ≡ ok config.settings

-- The error of a program that has started nothing.
abbrev pub IsEarly : Error → Type 0
IsEarly e = ((x : Programs.Error) × (e ≡ refused x)) ⊎ ((x : Bytes) × (e ≡ client_failed x))

module _ (o : Outside) where
  -- A history, the latest act first: whether the goroutines were started, what was done, and what is open. Only
  -- the latest resource is closed, and the goroutines start once, with everything open that they need.
  pub data History : Bool → List (Act Launch) → List Resource → Type 0 where
    nothing : History false [] []
    opens :
        {b : Bool} {acts : List (Act Launch)} {s : List Resource} (r : Resource)
        → History b acts s
        → History b (opened r ∷ acts) (r ∷ s)
    closes :
        {b : Bool} {acts : List (Act Launch)} {s : List Resource} (r : Resource)
        → History b acts (r ∷ s)
        → History b (closed r ∷ acts) s
    launches :
        {acts : List (Act Launch)} (l : Launch)
        → Accepts o l
        → History false acts (needs l)
        → History true (launched l ∷ acts) (needs l)
    cancels :
        {acts : List (Act Launch)} {s : List Resource}
        → History true acts (run_context ∷ s)
        → History true (canceled ∷ acts) (run_context ∷ s)

  pub leave-History :
      (b : Bool) (s : List Resource) (acts : List (Act Launch))
      → History b acts s
      → History b (leave s acts) []
  unfolding leave
  leave-History b [] acts h = h
  leave-History b (r ∷ s) acts h = leave-History b s (closed r ∷ acts) (closes r h)

  abbrev pub After : {A : Type 0} → Bool → List Resource → Result Error A × Frame Launch → Type 0
  After b s (ok a, f) = (f.deferred ≡ s) × History b f.acts s
  After b s (err e, f) = IsEarly e × History false f.acts f.deferred

  -- From one state of the history to another.
  abbrev pub Leads : {A : Type 0} → Bool → List Resource → Part A → Bool → List Resource → Type 0
  Leads b s m b' s' = (f : Frame Launch) → f.deferred ≡ s → History b f.acts s → After b' s' (m f)

  pub bind-Leads :
      {A B : Type 0} (b b' b'' : Bool) (s s' s'' : List Resource) (m : Part A) (k : A → Part B)
      → Leads b s m b' s'
      → ((a : A) → Leads b' s' (k a) b'' s'')
      → Leads b s (m >>= k) b'' s''
  bind-Leads {A} {B} b b' b'' s s' s'' m k first rest f d h = proceed (m f) (first f d h)
    where
      proceed : (r : Result Error A × Frame Launch) → After b' s' r → After b'' s'' (go_on r k)
      proceed (ok a, g) (d', h') = rest a g d' h'
      proceed (err e, g) early = early

  IsEarly-deferred :
      (f : Frame Launch) (s : List Resource) (e : Error)
      → f.deferred ≡ s
      → IsEarly e
      → History false f.acts s
      → IsEarly e × History false f.acts f.deferred
  IsEarly-deferred f s e d early h = (early, rw d h)

  -- A result of the settings or of their test.
  pub lift-Leads :
      {A B : Type 0} (b : Bool) (s s' : List Resource) (r : Result Error A) (k : A → Part B)
      → ((e : Error) → r ≡ err e → IsEarly e)
      → ((a : A) → r ≡ ok a → Leads false s (k a) b s')
      → Leads false s (lift r >>= k) b s'
  lift-Leads b s s' (ok a) k early rest f d h = rest a refl f d h
  lift-Leads b s s' (err x) k early rest f d h = IsEarly-deferred f s x d (early x refl) h

  pub acquire-Leads :
      (b : Bool) (s : List Resource) (r : Resource) → Leads b s (acquire r) b (r ∷ s)
  unfolding acquire
  acquire-Leads b s r f d h = (ap (λ t. r ∷ t) d, opens r h)

  pub opened_as-Leads :
      (s : List Resource) (opening : Opening) → Leads false s (opened_as opening) false (pool ∷ s)
  unfolding note
  opened_as-Leads s (no_pool x) f d h = IsEarly-deferred f s _ d (inl (database_failed x, refl)) h
  opened_as-Leads s (closed_again x) f d h =
      (inl (database_failed x, refl), closes pool (opens pool (rw d h)))
  opened_as-Leads s open_pool f d h = acquire-Leads false s pool f d h

  pub acquire_client-Leads :
      (s : List Resource) (r : Resource) (answer : Option Bytes)
      → Leads false s (acquire_client r answer) false (r ∷ s)
  acquire_client-Leads s r none f d h = acquire-Leads false s r f d h
  acquire_client-Leads s r (some x) f d h = IsEarly-deferred f s _ d (inr (x, refl)) h

  pub launch-Leads :
      (l : Launch) (s : List Resource)
      → needs l ≡ run_context ∷ s
      → Accepts o l
      → Leads false s (launch o l) true (run_context ∷ s)
  unfolding launch acquire note
  launch-Leads l s enough accepted f d h = (
    ap (λ t. run_context ∷ t) d,
    cancels (rw enough at (launches l accepted (rw (sym enough) at (opens run_context h)))),
  )
