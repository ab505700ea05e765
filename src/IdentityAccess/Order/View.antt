-- ===== src/IdentityAccess/Order/View.antt =====
-- identity-access over stores whose order Go may change at any moment: the abstract stores are the
-- valid ones up to order, and a request acts on those.
use cricket_drs_system.Prelude.{
  String, ◌≡◌, refl, none, some, sym, ap, ◌∙◌, Option, List, [], ◌∷◌, string_eq, pair_eq, eq_iff,
  ◌==◌, Bool-cases, inl, inr, arith,
}
use mathlib.Core.HLevel.{hedberg}
use mathlib.Core.Quot
use mathlib.Core.Quot.{Quot, Quot-set}
use cricket_drs_system.Table.{lookup}
use cricket_drs_system.Table.Order.{Distinct}
use cricket_drs_system.IdentityAccess.Domain.{Organization, OrganizationId, User, ConsentRecord}
use cricket_drs_system.IdentityAccess.Store.{UserKey, ConsentKey}
use cricket_drs_system.IdentityAccess.Service
use cricket_drs_system.IdentityAccess.Service.{State, Ports}
use cricket_drs_system.IdentityAccess.Http.{Inputs, Route, Response, Request, LoginRequest, serve}
use cricket_drs_system.IdentityAccess.Invariant.{IsValid}
use cricket_drs_system.IdentityAccess.Invariant.Serve.{require_auth-IsValid}
use cricket_drs_system.IdentityAccess.Order.{SameState}
use cricket_drs_system.IdentityAccess.Order.Serve.{Agree, serve-Agree}

text_discrete : Discrete String
text_discrete s t = elim (Bool-cases (s == t)) [
  | inl same ↦ yes ((eq_iff s t).0 same)
  | inr other ↦ no (λ e. absurd (ground (arith, (eq_iff s t).1 e)))
]

pub text_set : IsSet String
text_set = hedberg text_discrete

-- Valid stores, in one order, with each user's key once.
pub record Stores : Type 0 where
  pub state : State
  pub valid : IsValid state
  pub distinct : Distinct state.users

-- What is asked: a login, or a request behind `requireAuth`.
pub data Asked : Type 0 where
  login : Option LoginRequest → Asked
  behind_auth : String → Route → Asked

abbrev pub request_of : Asked → Request
request_of (login body) = Request.login body
request_of (behind_auth header route) = Request.behind_auth header route

-- A request, with what it draws from its surroundings.
pub record Call : Type 0 where
  pub asked : Asked
  pub inputs : Inputs

abbrev pub SameStores : Stores → Stores → Type 0
SameStores a b = SameState a.state b.state

pub itself : (a : Stores) → SameStores a a
itself a = record {
  orgs = λ k. refl;
  users = λ k. refl;
  consents = λ k. refl;
  distinct_left = a.distinct;
  distinct_right = a.distinct;
}

-- The stores up to order
abbrev pub View : Type 0
View = Quot SameStores

module _ (ports : Ports) where
  -- A request, on the stores in one order.
  abbrev pub answer : Call → State → Response × State
  answer c s = serve ports c.inputs (request_of c.asked) s

  pub same_answer :
      (c : Call) (a b : Stores) → SameStores a b → Agree (answer c a.state) (answer c b.state)
  same_answer c a b same =
      serve-Agree ports c.inputs (request_of c.asked) a.state b.state a.valid.emails b.valid.emails
        same

  serve-keeps :
      (asked : Asked) (inputs : Inputs) (s : State)
      → IsValid s
      → IsValid (serve ports inputs (request_of asked) s).1
  unfolding serve Service.login
  serve-keeps (login none) inputs s h = h
  serve-keeps (login (some req)) inputs s h = ground arith
  serve-keeps (behind_auth header route) inputs s h =
      require_auth-IsValid ports inputs header route s h

  pub answer-IsValid : (c : Call) (s : State) → IsValid s → IsValid (answer c s).1
  answer-IsValid c s h = serve-keeps c.asked c.inputs s h

  abbrev pub stores_after : Call → Stores → Stores
  stores_after c a = record {
    state = (answer c a.state).1;
    valid = answer-IsValid c a.state a.valid;
    distinct = (same_answer c a a (itself a)).1.distinct_left;
  }

  abbrev pub response : Call → Stores → Response
  response c a = (answer c a.state).0

  -- A history of requests, where the order of the maps may change before, between and after them.
  -- A request walks the users once at most, so that an order for each request is enough.
  pub data Walks : List Call → Stores → List Response → Stores → Type 0 where
    done : (a : Stores) → Walks [] a [] a
    reorder :
        (cs : List Call) (rs : List Response) (a b z : Stores)
        → SameStores a b
        → Walks cs b rs z
        → Walks cs a rs z
    call :
        (c : Call) (cs : List Call) (rs : List Response) (a z : Stores)
        → Walks cs (stores_after c a) rs z
        → Walks (c ∷ cs) a (response c a ∷ rs) z

  -- A request on the abstract stores
  unfoldable pub view_answer : Call → View → Response × View
  view_answer c =
      Quot.lift (hlevel (Quot-set, text_set)) (λ a. (response c a, Quot.mk (stores_after c a)))
        λ a b same.
          let (equal, after) = same_answer c a b same in
          λ i. (equal i, Quot.sound {a = stores_after c a} {b = stores_after c b} after i)

  unfoldable pub view_answers : List Call → View → List Response × View
  view_answers [] v = ([], v)
  view_answers (c ∷ cs) v =
      let (r, v') = view_answer c v in let (rs, v2) = view_answers cs v' in (r ∷ rs, v2)

  Walks-view_answers :
      (cs : List Call) (rs : List Response) (a z : Stores)
      → Walks cs a rs z
      → view_answers cs (Quot.mk a) ≡ (rs, Quot.mk z)
  unfolding view_answers view_answer
  Walks-view_answers _ _ _ _ (done a) = refl
  Walks-view_answers _ _ _ _ (reorder cs rs a b z same w) =
      ap (view_answers cs) (Quot.sound {a = a} {b = b} same) ∙ Walks-view_answers cs rs b z w
  Walks-view_answers _ _ _ _ (call c cs rs a z w) =
      ap (λ x. (response c a ∷ x.0, x.1)) (Walks-view_answers cs rs (stores_after c a) z w)

abbrev view_org : OrganizationId → View → Option Organization
view_org k = Quot.lift (hlevel text_set) (λ a. lookup k a.state.orgs) λ a b same. same.orgs k

abbrev view_user : UserKey → View → Option User
view_user k = Quot.lift (hlevel text_set) (λ a. lookup k a.state.users) λ a b same. same.users k

abbrev view_consent : ConsentKey → View → Option ConsentRecord
view_consent k =
    Quot.lift (hlevel text_set) (λ a. lookup k a.state.consents) λ a b same. same.consents k

-- Stores that are equal up to order find the same under every key.
View-exact : (a b : Stores) → ◌≡◌ {A = View} (Quot.mk a) (Quot.mk b) → SameStores a b
View-exact a b equal = record {
  orgs = λ k. ap (view_org k) equal;
  users = λ k. ap (view_user k) equal;
  consents = λ k. ap (view_consent k) equal;
  distinct_left = a.distinct;
  distinct_right = b.distinct;
}

-- Go may walk a map in another order each time. From valid stores, whatever order the maps are in
-- before, between and after the logins and the requests behind `requireAuth` of a history, the
-- responses to it are the same, and so is what the stores hold under every key at its end.
pub Walks-determined :
    (ports : Ports) (cs : List Call) (a : Stores) (rs rs' : List Response) (z z' : Stores)
    → Walks ports cs a rs z
    → Walks ports cs a rs' z'
    → (rs ≡ rs') × SameStores z z'
Walks-determined ports cs a rs rs' z z' w w' =
    let equal : ◌≡◌ {A = List Response × View} (rs, Quot.mk z) (rs', Quot.mk z') =
      sym (Walks-view_answers ports cs rs a z w) ∙ Walks-view_answers ports cs rs' a z' w' in
    (ap (λ x. x.0) equal, View-exact z z' (ap (λ x. x.1) equal))
