-- ===== src/Client/Page/Loading.antt =====
-- client/src/app/core/services/loading.service.ts and interceptors/loading.interceptor.ts.
use bid_battle.Prelude.{
  [], ◌-◌, ◌∷◌, ◌==◌, ◌≡◌, arith, false, length, not, suc, true, Bool, List, if◌then◌else◌, ℕ,
}

pub record Loading : Type 0 where
  pub active_requests : ℕ
  -- the requests that were sent and are not finalized yet
  pub open_requests : List ℕ

abbrev pub is_loading : Loading → Bool
is_loading s = not (s.active_requests == 0)

abbrev start : Loading → Loading
start s = record s { active_requests = suc s.active_requests }

-- `Math.max(0, n - 1)`
abbrev stop : Loading → Loading
stop s = record s { active_requests = s.active_requests - 1 }

-- `loadingInterceptor`: a request that skips the counter, or one that `finalize` takes out again
unfoldable pub intercept_loading : Bool → ℕ → Loading → Loading
intercept_loading skip id s =
    if skip then s else start (record s { open_requests = id ∷ s.open_requests })

abbrev pub take_out : ℕ → List ℕ → List ℕ
take_out id [] = []
take_out id (x ∷ xs) = if x == id then xs else x ∷ take_out id xs

abbrev pub contains : ℕ → List ℕ → Bool
contains id [] = false
contains id (x ∷ xs) = if x == id then true else contains id xs

-- it runs once for each request that is open
unfoldable pub finalize_request : ℕ → Loading → Loading
finalize_request id s =
    if contains id s.open_requests
    then stop (record s { open_requests = take_out id s.open_requests })
    else s

pub data LoadingEvent : Type 0 where
  sent : Bool → ℕ → LoadingEvent
  finalized : ℕ → LoadingEvent

abbrev pub occur_loading : LoadingEvent → Loading → Loading
occur_loading (LoadingEvent.sent skip id) s = intercept_loading skip id s
occur_loading (LoadingEvent.finalized id) s = finalize_request id s

unfoldable pub occur_loadings : List LoadingEvent → Loading → Loading
occur_loadings [] s = s
occur_loadings (e ∷ es) s = occur_loadings es (occur_loading e s)

length-take_out :
    (id : ℕ) (xs : List ℕ) → contains id xs ≡ true → length xs ≡ suc (length (take_out id xs))
length-take_out id [] h = cc
length-take_out id (x ∷ xs) h = ground (arith, length-take_out id xs)

occur_loading-counts :
    (e : LoadingEvent) (s : Loading)
    → s.active_requests ≡ length s.open_requests
    → (occur_loading e s).active_requests ≡ length (occur_loading e s).open_requests
unfolding intercept_loading finalize_request
occur_loading-counts (LoadingEvent.sent skip id) s h = ground (arith, h)
occur_loading-counts (LoadingEvent.finalized id) s h =
    ground (arith, h, length-take_out id s.open_requests)

-- The counter is the number of the open requests, whatever requests are sent and finalized in whatever
-- order: the page is loading exactly while there is one.
pub occur_loadings-counts :
    (es : List LoadingEvent) (s : Loading)
    → s.active_requests ≡ length s.open_requests
    → (occur_loadings es s).active_requests ≡ length (occur_loadings es s).open_requests
unfolding occur_loadings
occur_loadings-counts [] s h = h
occur_loadings-counts (e ∷ es) s h =
    occur_loadings-counts es (occur_loading e s) (occur_loading-counts e s h)
