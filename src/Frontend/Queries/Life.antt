-- ===== src/Frontend/Queries/Life.antt =====
-- The life of a developer's statistics, from effect to effect, and of a node's.
use blindference.Prelude.{
  ℕ, suc, String, Bool, true, false, ◌≡◌, ◌≢◌, refl, Option, none, Result, truthy, arith,
}
use blindference.Frontend.Queries.{Query, Answer, enter_stats, finish_stats, begin_node, end_node}

-- The statistics, and whether the last effect has a request under way.
pub record Stats (A : Type 0) : Type 0 where
  pub query : Query A
  pub live : Bool

module _ {A : Type 0} where
  -- A new address cleans the last effect up, so that its answer, if it comes, is of a request that is
  -- cancelled.
  pub data StatsStep : Stats A → Stats A → Type 0 where
    enter :
        (s : Stats A) (address : Option String)
        → StatsStep s (record {
          query = (enter_stats address s.query).1;
          live = (enter_stats address s.query).0;
        })
    answered :
        (query : Query A) (r : Result A)
        → StatsStep
            (record { query = query; live = true })
            (record { query = finish_stats false r query; live = false })
    late :
        (s : Stats A) (r : Result A)
        → StatsStep s (record s { query = finish_stats true r s.query })

  pub data StatsReach (s : Stats A) : Stats A → Type 0 where
    here : StatsReach s s
    next : {t u : Stats A} → StatsReach s t → StatsStep t u → StatsReach s u

  -- A request that counts shows as loading, with no error.
  abbrev pub Busy : Stats A → Type 0
  Busy s = s.live ≡ true → (s.query.loading ≡ true) × (s.query.error ≡ none)

  StatsStep-Busy : {s t : Stats A} → StatsStep s t → Busy s → Busy t
  unfolding enter_stats finish_stats
  StatsStep-Busy (StatsStep.enter s address) h = λ live. ground arith
  StatsStep-Busy (StatsStep.answered query r) h = λ live. ground arith
  StatsStep-Busy (StatsStep.late s r) h = h

  -- Through any addresses and answers, in time or late, a request that still counts shows as loading
  -- and without an error.
  pub StatsReach-Busy : {s t : Stats A} → Busy s → StatsReach s t → Busy t
  StatsReach-Busy h StatsReach.here = h
  StatsReach-Busy h (StatsReach.next r step) = StatsStep-Busy step (StatsReach-Busy h r)

  -- Where the address goes away under a request, the statistics load for ever: neither the late answer
  -- nor another effect without an address ends it.
  pub stats_stuck :
      (query : Query A) (r : Result A) (address : Option String)
      → query.loading ≡ true
      → truthy address ≡ false
      → let left = (enter_stats address (finish_stats true r (enter_stats none query).1)) in
        (left.0 ≡ false) × (left.1.loading ≡ true)
  unfolding enter_stats finish_stats
  stats_stuck query r address busy away = rw away (refl, busy)

-- A node's answers, and how many requests are under way.
pub record Node (A : Type 0) : Type 0 where
  pub query : Query A
  pub fetching : ℕ

module _ {A : Type 0} (cleared : Option A) (fallback : String) where
  pub data NodeStep : Node A → Node A → Type 0 where
    fetch :
        (s : Node A) (address : Option String)
        → truthy address ≡ true
        → NodeStep s
            (record { query = (begin_node cleared address s.query).1; fetching = suc s.fetching })
    left :
        (s : Node A) (address : Option String)
        → truthy address ≡ false
        → NodeStep s (record s { query = (begin_node cleared address s.query).1 })
    fetched :
        (query : Query A) (n : ℕ) (answer : Answer A)
        → NodeStep
            (record { query = query; fetching = suc n })
            (record { query = end_node fallback answer query; fetching = n })

  pub data NodeReach (s : Node A) : Node A → Type 0 where
    here : NodeReach s s
    next : {t u : Node A} → NodeReach s t → NodeStep t u → NodeReach s u

  -- What is loading has a request under way, and no error.
  abbrev pub Waiting : Node A → Type 0
  Waiting s = s.query.loading ≡ true → (s.fetching ≢ 0) × (s.query.error ≡ none)

  NodeStep-Waiting : {s t : Node A} → NodeStep s t → Waiting s → Waiting t
  unfolding begin_node end_node
  NodeStep-Waiting (NodeStep.fetch s address there) h = λ loading. ground arith
  NodeStep-Waiting (NodeStep.left s address away) h = rw away h
  NodeStep-Waiting (NodeStep.fetched query n (Answer.came a)) h = λ loading. ground arith
  NodeStep-Waiting (NodeStep.fetched query n (Answer.failed e)) h = λ loading. ground arith

  -- Through any requests and answers, in any order, what is loading has a request under way and shows no
  -- error.
  pub NodeReach-Waiting : {s t : Node A} → Waiting s → NodeReach s t → Waiting t
  NodeReach-Waiting h NodeReach.here = h
  NodeReach-Waiting h (NodeReach.next r step) = NodeStep-Waiting step (NodeReach-Waiting h r)
