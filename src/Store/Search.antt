-- ===== src/Store/Search.antt =====
-- What a search of threads asks for: the order and the filters, and the keys and tests of the code for them.
use skeino.Base.{
  refl, All-mono, in_order, leb, zero, suc, elem, none, some, Bool, false, ℕ, ◌≤◌, ◌≡◌, true, not,
  Option, List, [], ◌∷◌, arith, All, IsSorted,
}
use skeino.Schemas.{
  ThreadStatus, SortField, thread_rank, thread_status_eq, ThreadSearchRequest, ThreadRow,
}
use skeino.Store.{id_allowed, status_allowed, sort_key, resolve_sort_by}

-- The statuses as text, in alphabetical order: "busy", "error", "idle", "interrupted".
abbrev pub AlphabeticallyLe : ThreadStatus → ThreadStatus → Type 0
AlphabeticallyLe ThreadStatus.busy b = Unit
AlphabeticallyLe ThreadStatus.error ThreadStatus.busy = ⊥
AlphabeticallyLe ThreadStatus.error b = Unit
AlphabeticallyLe ThreadStatus.idle ThreadStatus.idle = Unit
AlphabeticallyLe ThreadStatus.idle ThreadStatus.interrupted = Unit
AlphabeticallyLe ThreadStatus.idle b = ⊥
AlphabeticallyLe ThreadStatus.interrupted ThreadStatus.interrupted = Unit
AlphabeticallyLe ThreadStatus.interrupted b = ⊥

-- A missing value comes before every value.
abbrev pub MissingLe : Option ℕ → Option ℕ → Type 0
MissingLe none b = Unit
MissingLe (some m) none = ⊥
MissingLe (some m) (some n) = m ≤ n

abbrev pub Le : SortField → ThreadRow → ThreadRow → Type 0
Le SortField.thread_id a b = a.thread_id ≤ b.thread_id
Le SortField.status a b = AlphabeticallyLe a.status b.status
Le SortField.created_at a b = a.created_at ≤ b.created_at
Le SortField.updated_at a b = a.updated_at ≤ b.updated_at
Le SortField.state_updated_at a b = MissingLe a.state_updated_at b.state_updated_at

abbrev pub Directed : Bool → SortField → ThreadRow → ThreadRow → Type 0
Directed true field a b = Le field a b
Directed false field a b = Le field b a

-- `a` may stand before `b`: by the requested field, else by `updated_at`.
abbrev pub Before : Option SortField → Bool → ThreadRow → ThreadRow → Type 0
Before none ascending = Directed ascending SortField.updated_at
Before (some field) ascending = Directed ascending field

abbrev pub InOrder : ThreadSearchRequest → List ThreadRow → Type 0
InOrder request [] = Unit
InOrder request (a ∷ rows) =
    All (Before request.sort_by request.ascending a) rows × InOrder request rows

-- What a search asks for: no filter on the ids, an empty one, or one that lists the thread; and no status
-- or the thread's.
abbrev pub IdWanted : Option (List ℕ) → ℕ → Type 0
IdWanted none k = Unit
IdWanted (some []) k = Unit
IdWanted (some (i ∷ ids)) k = elem k (i ∷ ids) ≡ true

abbrev pub StatusWanted : Option ThreadStatus → ThreadStatus → Type 0
StatusWanted none status = Unit
StatusWanted (some wanted) status = status ≡ wanted

abbrev pub Wanted : ThreadSearchRequest → ThreadRow → Type 0
Wanted request row = IdWanted request.ids row.thread_id × StatusWanted request.status row.status

ranked :
    (a b : ThreadStatus)
    → leb (suc (thread_rank a)) (suc (thread_rank b)) ≡ true
    → AlphabeticallyLe a b
ranked ThreadStatus.busy b h = tt
ranked ThreadStatus.error ThreadStatus.busy h = absurd (cc)
ranked ThreadStatus.error ThreadStatus.error h = tt
ranked ThreadStatus.error ThreadStatus.idle h = tt
ranked ThreadStatus.error ThreadStatus.interrupted h = tt
ranked ThreadStatus.idle ThreadStatus.busy h = absurd (cc)
ranked ThreadStatus.idle ThreadStatus.error h = absurd (cc)
ranked ThreadStatus.idle ThreadStatus.idle h = tt
ranked ThreadStatus.idle ThreadStatus.interrupted h = tt
ranked ThreadStatus.interrupted ThreadStatus.busy h = absurd (cc)
ranked ThreadStatus.interrupted ThreadStatus.error h = absurd (cc)
ranked ThreadStatus.interrupted ThreadStatus.idle h = absurd (cc)
ranked ThreadStatus.interrupted ThreadStatus.interrupted h = tt

missing_first :
    (a b : Option ℕ)
    → leb (elim a [ none ↦ zero | some t ↦ suc t ]) (elim b [ none ↦ zero | some t ↦ suc t ]) ≡ true
    → MissingLe a b
missing_first none b h = tt
missing_first (some m) none h = absurd (ground arith)
missing_first (some m) (some n) h = ground arith

sort_key-Le :
    (field : SortField) (a b : ThreadRow)
    → leb (sort_key field a) (sort_key field b) ≡ true
    → Le field a b
unfolding sort_key
sort_key-Le SortField.thread_id a b h = ground arith
sort_key-Le SortField.status a b h = ranked a.status b.status h
sort_key-Le SortField.created_at a b h = ground arith
sort_key-Le SortField.updated_at a b h = ground arith
sort_key-Le SortField.state_updated_at a b h = missing_first a.state_updated_at b.state_updated_at h

in_order-Directed :
    (field : SortField) (ascending : Bool) (a b : ThreadRow)
    → in_order (sort_key field) (not ascending) a b ≡ true
    → Directed ascending field a b
in_order-Directed field true a b h = sort_key-Le field a b h
in_order-Directed field false a b h = sort_key-Le field b a h

in_order-Before :
    (request : ThreadSearchRequest) (a b : ThreadRow)
    → in_order (sort_key (resolve_sort_by request)) (not request.ascending) a b ≡ true
    → Before request.sort_by request.ascending a b
unfolding resolve_sort_by
in_order-Before request a b = by_field request.sort_by
  where
    by_field :
        (sort_by : Option SortField)
        → let field : SortField = elim sort_by [ none ↦ SortField.updated_at | some f ↦ f ] in
          in_order (sort_key field) (not request.ascending) a b ≡ true
          → Before sort_by request.ascending a b
    by_field none h = in_order-Directed SortField.updated_at request.ascending a b h
    by_field (some field) h = in_order-Directed field request.ascending a b h

pub IsSorted-InOrder :
    (request : ThreadSearchRequest) (rows : List ThreadRow)
    → IsSorted (sort_key (resolve_sort_by request)) (not request.ascending) rows
    → InOrder request rows
IsSorted-InOrder request [] h = tt
IsSorted-InOrder request (a ∷ rows) h =
    (All-mono _ _ (in_order-Before request a) rows h.0, IsSorted-InOrder request rows h.1)

status_of : (a b : ThreadStatus) → thread_status_eq a b ≡ true → a ≡ b
status_of ThreadStatus.busy ThreadStatus.busy h = refl
status_of ThreadStatus.error ThreadStatus.error h = refl
status_of ThreadStatus.idle ThreadStatus.idle h = refl
status_of ThreadStatus.interrupted ThreadStatus.interrupted h = refl
status_of a b h = absurd (cc)

same_status : (a : ThreadStatus) → thread_status_eq a a ≡ true
same_status a = ground arith

pub id_allowed-IdWanted :
    (ids : Option (List ℕ)) (row : ThreadRow)
    → id_allowed ids row ≡ true
    → IdWanted ids row.thread_id
unfolding id_allowed
id_allowed-IdWanted none row h = tt
id_allowed-IdWanted (some []) row h = tt
id_allowed-IdWanted (some (i ∷ ids)) row h = h

pub IdWanted-id_allowed :
    (ids : Option (List ℕ)) (row : ThreadRow)
    → IdWanted ids row.thread_id
    → id_allowed ids row ≡ true
unfolding id_allowed
IdWanted-id_allowed none row h = refl
IdWanted-id_allowed (some []) row h = refl
IdWanted-id_allowed (some (i ∷ ids)) row h = h

pub status_allowed-StatusWanted :
    (status : Option ThreadStatus) (row : ThreadRow)
    → status_allowed status row ≡ true
    → StatusWanted status row.status
unfolding status_allowed
status_allowed-StatusWanted none row h = tt
status_allowed-StatusWanted (some wanted) row h = status_of row.status wanted h

pub StatusWanted-status_allowed :
    (status : Option ThreadStatus) (row : ThreadRow)
    → StatusWanted status row.status
    → status_allowed status row ≡ true
unfolding status_allowed
StatusWanted-status_allowed none row h = refl
StatusWanted-status_allowed (some wanted) row h = rw h (same_status wanted)
