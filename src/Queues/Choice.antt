-- ===== src/Queues/Choice.antt =====
-- Which agent `Queue.get_available_agent` chooses (chats/apps/queues/models.py).
use chats_engine.Prelude.{
  ℕ, ◌≤◌, ◌<◌, ◌≡◌, refl, ap, sym, subst, ◌∙◌, Bool, true, false, ◌&&◌, none, some, List, [], ◌∷◌,
  ltb, ◌==◌, ==_iff, if◌then◌else◌, is_some, length, any, select, All, arith, and_true, Option,
}
use chats_engine.Store.{Queue, Permission, Db}
use chats_engine.Queues.{
  Env, enabled, active_rooms_count, or_limit, custom_limit, limit, effective_limit, execute,
  is_online_agent, online_agents, has_capacity, is_available, load, available_agents, order_by,
  least, eligible, choice, choose, rooms_closed_today, get_agent_with_least_rooms_closed_today,
  get_available_agent,
}
use chats_engine.Queues.Least.{
  All-order_by, All-select_imp, Among, eligible-least, eligible-length, eligible-some, first,
  get_elem?-Among, get_elem?-is_some, order_by-Among, order_by-length, select-Among, select-some,
  first,
}

-- The recheck of the capacity and the query agree, though they read the limit differently.
recheck :
    (env : Env) (q : Queue) (db : Db) (p : Permission)
    → (execute env q p.user db).can_receive ≡ has_capacity env q db p
unfolding execute effective_limit
recheck env q db p = agrees (enabled env.agents_management)
  where
    active : ℕ
    active = active_rooms_count q p.user db

    agrees :
        (b : Bool)
        → ltb active (or_limit q (if b then custom_limit q p.user db else none))
          ≡ ltb active (if b then or_limit q (custom_limit q p.user db) else limit q.sector)
    agrees true = refl
    agrees false = refl

-- Nothing writes in between: the query's agents are never refused.
pub can_receive-available :
    (env : Env) (q : Queue) (db : Db) (p : Permission)
    → has_capacity env q db p ≡ true
    → (execute env q p.user db).can_receive ≡ true
can_receive-available env q db p h = recheck env q db p ∙ h

-- The recheck of the agent that is chosen, if there is one.
abbrev pub passes : Env → Queue → Db → Option Permission → Bool
passes env q db none = true
passes env q db (some p) = (execute env q p.user db).can_receive

any_same : {A : Type 0} (f g : A → Bool) (xs : List A) → ((x : A) → f x ≡ g x) → any f xs ≡ any g xs
any_same f g [] e = refl
any_same f g (x ∷ xs) e = rw (e x, any_same f g xs e) refl

module _ (env : Env) (now : ℕ) (q : Queue) (draw : ℕ → ℕ) (db : Db) where
  choice-Among :
      (ps : List Permission) {p : Permission} → choice env now q draw ps ≡ some p → Among p ps
  choice-Among ps e = get_elem?-Among ps (draw (length ps)) e

  abbrev Few : Bool → Permission → Permission → Type 0
  Few b p x =
      (if b then rooms_closed_today env now q db p else 0) ≤ rooms_closed_today env now q db x

  Few-false : (p : Permission) (ps : List Permission) → All (Few false p) ps
  Few-false p [] = tt
  Few-false p (x ∷ xs) = (omega arith, Few-false p xs)

  Few-only : (b : Bool) (p : Permission) → Few b p p
  Few-only true p = omega arith
  Few-only false p = omega arith

  flagged :
      (b : Bool) (ps : List Permission) {p : Permission}
      → (if b
          then get_agent_with_least_rooms_closed_today env now q draw ps db
          else choice env now q draw ps)
        ≡ some p
      → Among p ps × All (Few b p) ps
  unfolding get_agent_with_least_rooms_closed_today
  flagged true ps e =
      eligible-least (rooms_closed_today env now q db) ps
        (choice-Among (eligible (rooms_closed_today env now q db) ps) e)
  flagged false ps {p} e = (choice-Among ps e, Few-false p ps)

  -- The last choice takes one of the agents, and one with the fewest rooms closed today where the
  -- flag is set.
  choose-Among :
      (ps : List Permission) {p : Permission}
      → choose env now q draw ps db ≡ some p
      → Among p ps × All (Few env.least_closed_today p) ps
  choose-Among [] e = absurd (ground (arith, e))
  choose-Among (x ∷ []) {p} e =
      let is : x ≡ p = ground (arith, e) in
      (
        subst (λ y. Among p (y ∷ [])) (sym is) first,
        (
          subst (λ y. Few env.least_closed_today p y) (sym is) (Few-only env.least_closed_today p),
          tt,
        ),
      )
  choose-Among (x ∷ y ∷ ys) e = flagged env.least_closed_today (x ∷ y ∷ ys) e

  choice-is_some :
      (draw_below : (n : ℕ) → 0 < n → draw n < n) (ps : List Permission)
      → 0 < length ps
      → is_some (choice env now q draw ps) ≡ true
  choice-is_some below ps h = get_elem?-is_some ps (draw (length ps)) (below (length ps) h)

  flagged-is_some :
      (draw_below : (n : ℕ) → 0 < n → draw n < n) (b : Bool) (p : Permission) (ps : List Permission)
      → is_some (
          if b
          then get_agent_with_least_rooms_closed_today env now q draw (p ∷ ps) db
          else choice env now q draw (p ∷ ps))
        ≡ true
  unfolding get_agent_with_least_rooms_closed_today
  flagged-is_some below true p ps =
      choice-is_some below (eligible (rooms_closed_today env now q db) (p ∷ ps))
        (eligible-length (rooms_closed_today env now q db) p ps)
  flagged-is_some below false p ps = choice-is_some below (p ∷ ps) (omega arith)

  choose-is_some :
      (draw_below : (n : ℕ) → 0 < n → draw n < n) (ps : List Permission)
      → is_some (choose env now q draw ps db) ≡ ltb 0 (length ps)
  choose-is_some below [] = refl
  choose-is_some below (x ∷ []) = ground arith
  choose-is_some below (x ∷ y ∷ ys) =
      flagged-is_some below env.least_closed_today x (y ∷ ys) ∙ ground arith

  available-Among :
      {p : Permission}
      → Among p (available_agents env now q db)
      → Among p db.permissions × (is_available env now q db p ≡ true)
  unfolding available_agents online_agents
  available-Among {p} m =
      let a = select-Among (has_capacity env q db) _ (order_by-Among (load env now q db) _ m) in
      let b = select-Among (is_online_agent env now q db) db.permissions a.0 in
      (b.0, ground (arith, a.1, b.1))

  available-is :
      available_agents env now q db
      ≡ order_by (load env now q db) (select (is_available env now q db) db.permissions)
  unfolding available_agents online_agents
  available-is =
      ap (order_by (load env now q db))
        (select-twice (is_online_agent env now q db) (has_capacity env q db) db.permissions)
    where
      select-twice :
          (a b : Permission → Bool) (ps : List Permission)
          → select b (select a ps) ≡ select (λ p. a p && b p) ps
      select-twice a b [] = refl
      select-twice a b (p ∷ ps) = ground (arith, select-twice a b ps)

  closed_eligible :
      (key : Permission → ℕ) (p : Permission) (ps : List Permission)
      → Among p (eligible key ps)
      → All (Few env.least_closed_today p) (eligible key ps)
      → All (λ x. Few (env.least_closed_today && key x == key p) p x) ps
  closed_eligible key p [] m h = tt
  closed_eligible key p (x ∷ xs) m h =
      let at_least = (==_iff _ _).0 (select-Among (λ y. key y == least key x xs) (x ∷ xs) m).1 in
      weaker (x ∷ xs) (
        subst (λ k. All (λ y. (key y == k) ≡ true → Few env.least_closed_today p y) (x ∷ xs))
          (sym at_least)
          (All-select_imp (Few env.least_closed_today p) (λ y. key y == least key x xs) (x ∷ xs) h))
    where
      weak : (b k : Bool) (y : Permission) → (k ≡ true → Few b p y) → Few (b && k) p y
      weak true true y f = f refl
      weak true false y f = omega arith
      weak false k y f = omega arith

      weaker :
          (ys : List Permission)
          → All (λ y. (key y == key p) ≡ true → Few env.least_closed_today p y) ys
          → All (λ y. Few (env.least_closed_today && key y == key p) p y) ys
      weaker [] h = tt
      weaker (y ∷ ys) h = (weak env.least_closed_today (key y == key p) y h.0, weaker ys h.1)

  both :
      (key : Permission → ℕ) (p : Permission) (ps : List Permission)
      → All (λ x. key p ≤ key x) ps
      → All (λ x. Few (env.least_closed_today && key x == key p) p x) ps
      → All (λ x. (key p ≤ key x) × Few (env.least_closed_today && key x == key p) p x) ps
  both key p [] a b = tt
  both key p (x ∷ xs) a b = ((a.0, b.0), both key p xs a.1 b.1)

  pub available_agents-some :
      ltb 0 (length (available_agents env now q db))
      ≡ any (is_available env now q db) db.permissions
  available_agents-some =
      ap (λ ps. ltb 0 (length ps)) available-is
      ∙ ap (ltb 0)
          (order_by-length (load env now q db) (select (is_available env now q db) db.permissions))
      ∙ select-some (is_available env now q db) db.permissions

  -- There is an agent where the project has one who is online in the queue, takes no break and is
  -- below their limit, and none otherwise.
  pub get_available_agent-is_some :
      (draw_below : (n : ℕ) → 0 < n → draw n < n)
      → is_some (get_available_agent env now q draw db)
        ≡ any (is_available env now q db) db.permissions
  unfolding get_available_agent
  get_available_agent-is_some below =
      choose-is_some below (eligible (load env now q db) (available_agents env now q db))
      ∙ eligible-some (load env now q db) (available_agents env now q db)
      ∙ available_agents-some

  -- An agent who is chosen is a permission that is available, none that is available has a smaller
  -- load, and, under the flag, none of the same load has closed fewer rooms today.
  pub get_available_agent-least :
      (p : Permission)
      → get_available_agent env now q draw db ≡ some p
      → Among p db.permissions
        × (is_available env now q db p ≡ true)
        × All
            (λ x.
              (load env now q db p ≤ load env now q db x)
              × ((if env.least_closed_today && load env now q db x == load env now q db p
                    then rooms_closed_today env now q db p
                    else 0)
                  ≤ rooms_closed_today env now q db x))
            (select (is_available env now q db) db.permissions)
  unfolding get_available_agent
  get_available_agent-least p e =
      let key = load env now q db in
      let agents = available_agents env now q db in
      let (m, closed) = choose-Among (eligible key agents) e in
      let (n, small) = eligible-least key agents m in
      let (row, ok) = available-Among n in
      (
        row,
        ok,
        All-order_by _ key (select (is_available env now q db) db.permissions) (
            subst (All (λ x. (key p ≤ key x) × Few (env.least_closed_today && key x == key p) p x))
              available-is (both key p agents small (closed_eligible key p agents m closed))),
      )

  chosen-passes :
      (o : Option Permission) → get_available_agent env now q draw db ≡ o → passes env q db o ≡ true
  chosen-passes none e = refl
  chosen-passes (some p) e =
      let (_, available, _) = get_available_agent-least p e in
      let (_, roomy) =
        and_true (is_online_agent env now q db p) (has_capacity env q db p) available in
      can_receive-available env q db p roomy

  -- An agent is chosen exactly where some permission of the project is online in the queue and would
  -- pass the recheck of its capacity, and the one who is chosen passes it: as long as nothing is
  -- written in between, the recheck neither refuses a choice nor admits an agent that the query leaves
  -- out.
  pub get_available_agent-can_receive :
      (draw_below : (n : ℕ) → 0 < n → draw n < n)
      → (is_some (get_available_agent env now q draw db)
          ≡ any
              (λ p. is_online_agent env now q db p && (execute env q p.user db).can_receive)
              db.permissions)
        × (passes env q db (get_available_agent env now q draw db) ≡ true)
  get_available_agent-can_receive below = (
    get_available_agent-is_some below
        ∙ any_same (is_available env now q db) _ db.permissions
            (λ p. ap (λ b. is_online_agent env now q db p && b) (sym (recheck env q db p))),
    chosen-passes (get_available_agent env now q draw db) refl,
  )
