-- ===== src/Manager/Api/Caught.antt =====
-- The handlers of src/mycoagent/manager/api.py catch what the store's methods raise.
use myco_agent.Common.{
  ℕ, ◌≡◌, refl, String, Bool, true, false, Option, none, some, arith, if◌then◌else◌, nat_eq, ◌||◌,
}
use myco_agent.Exec.{Result, ok, raise, resume, modify, pure, throw, gets, ◌>>=◌, ◌>>◌}
use myco_agent.Models.{GroupPolicyUpdate, MembershipStatus, HeartbeatRequest, CatalogQuery}
use myco_agent.Manager.Tables.{Store}
use myco_agent.Manager.Store.{
  StoreM, StoreError, require_group, require_node, get_group, update_group, delete_group,
  set_membership, heartbeat, get_node, query_catalog, group_not_found, node_not_found,
  membership_error,
}
use myco_agent.Manager.Api.{
  Excepts, uncaught, http_error, handled, respond, status_code, no_group, no_node, not_member,
  Request, serve, get_group_request, update_group_request, delete_group_request, approve_request,
  deny_request, heartbeat_request, get_node_request, catalog_request, get_group_handler,
  update_group_handler, delete_group_handler, approve_member, deny_member, heartbeat_handler,
  get_node_handler, catalog_handler,
}

-- A handler's answer is one of these.
unfoldable pub documented : ℕ → Bool
documented code = nat_eq code 200 || nat_eq code 400 || nat_eq code 404

-- The `except` clauses turn the error into a documented one.
abbrev caught : Excepts → StoreError → Bool
caught excepts e = elim (excepts e) [ none ↦ false | some error ↦ documented error.0 ]

-- The method raises only errors that the clauses catch.
record Raises {A : Type 0} (excepts : Excepts) (m : StoreM A) : Type 0 where
  at : (s : Store) (e : StoreError) → (m s).0 ≡ raise e → caught excepts e ≡ true

module _ {A : Type 0} {excepts : Excepts} where
  Raises-pure : (a : A) → Raises excepts (pure a)
  Raises-pure a = record { at = λ s e h. absurd (ground (arith, h)) }

  Raises-gets : (f : Store → A) → Raises excepts (gets f)
  Raises-gets f = record { at = λ s e h. absurd (ground (arith, h)) }

  Raises-if :
      (b : Bool) (m n : StoreM A)
      → Raises excepts m
      → Raises excepts n
      → Raises excepts (if b then m else n)
  Raises-if true m n km kn = km
  Raises-if false m n km kn = kn

module _ {excepts : Excepts} where
  Raises-modify : (f : Store → Store) → Raises excepts (modify f)
  Raises-modify f = record { at = λ s e h. absurd (ground (arith, h)) }

module _ {A B : Type 0} {excepts : Excepts} where
  Raises-bind :
      (m : StoreM A) (f : A → StoreM B)
      → Raises excepts m
      → ((a : A) → Raises excepts (f a))
      → Raises excepts (m >>= f)
  Raises-bind m f km kf = record { at = λ s e h. go (m s).0 (m s).1 (λ x. km.at s x) e h }
    where
      go :
          (r : Result StoreError A) (s' : Store)
          → ((x : StoreError) → r ≡ raise x → caught excepts x ≡ true)
          → (e : StoreError) → (resume r f s').0 ≡ raise e
          → caught excepts e ≡ true
      go (ok a) s' k e h = (kf a).at s' e h
      go (raise x) s' k e h = ground (arith, h, k x refl)

  Raises-then :
      (m : StoreM A) (n : StoreM B) → Raises excepts m → Raises excepts n → Raises excepts (m >> n)
  Raises-then m n km kn = Raises-bind m (λ _. n) km (λ _. kn)

Raises-throw :
    {A : Type 0} (excepts : Excepts) (x : StoreError)
    → caught excepts x ≡ true
    → Raises {A = A} excepts (throw x)
Raises-throw excepts x c = record { at = λ s e h. ground (arith, h, c) }

require_group-Raises :
    (excepts : Excepts) (name : String)
    → caught excepts (group_not_found name) ≡ true
    → Raises excepts (require_group name)
unfolding require_group
require_group-Raises excepts name c = record { at = λ s e h. ground (arith, h, c) }

require_node-Raises :
    (excepts : Excepts) (node_id : String)
    → caught excepts (node_not_found node_id) ≡ true
    → Raises excepts (require_node node_id)
unfolding require_node
require_node-Raises excepts node_id c = record { at = λ s e h. ground (arith, h, c) }

answered :
    (A : Type 0) (e : StoreError) (o : Option (ℕ × String))
    → elim o [ none ↦ false | some error ↦ documented error.0 ] ≡ true
    → documented (
        status_code {A = A}
          (elim o [ none ↦ uncaught e | some error ↦ http_error error.0 error.1 ]))
      ≡ true
unfolding status_code
answered A e none c = absurd (ground (arith, c))
answered A e (some error) c = c

served :
    {A : Type 0} (excepts : Excepts) (m : StoreM A)
    → Raises excepts m
    → (s : Store) → documented (status_code (handled excepts m s).0) ≡ true
unfolding status_code respond
served {A = A} excepts m r s = go (m s).0 (r.at s)
  where
    go :
        (x : Result StoreError A)
        → ((e : StoreError) → x ≡ raise e → caught excepts e ≡ true)
        → documented (status_code (respond excepts x)) ≡ true
    go (ok a) k = unfold documented in refl
    go (raise e) k = answered A e (excepts e) (k e refl)

module _ (name : String) where
  group_caught : caught (no_group name) (group_not_found name) ≡ true
  unfolding no_group documented
  group_caught = refl

  get_group-Raises : (read : ℕ) → Raises (no_group name) (get_group read name)
  unfolding get_group
  get_group-Raises read =
      Raises-then _ _ (Raises-modify _)
        (Raises-bind _ _ (require_group-Raises _ name group_caught) (λ row. Raises-gets _))

  update_group-Raises :
      (first read : ℕ) (body : GroupPolicyUpdate)
      → Raises (no_group name) (update_group first read name body)
  unfolding update_group
  update_group-Raises first read body =
      Raises-bind _ _ (get_group-Raises first)
        (λ current. Raises-then _ _ (Raises-modify _) (get_group-Raises read))

  delete_group-Raises : Raises (no_group name) (delete_group name)
  unfolding delete_group
  delete_group-Raises = record { at = λ s e h. ground (arith, h, group_caught) }

node_caught : (node_id : String) → caught (no_node node_id) (node_not_found node_id) ≡ true
unfolding no_node documented
node_caught node_id = refl

get_node-Raises :
    (excepts : Excepts) (read : ℕ) (node_id : String)
    → caught excepts (node_not_found node_id) ≡ true
    → Raises excepts (get_node read node_id)
unfolding get_node
get_node-Raises excepts read node_id c =
    Raises-then _ _ (Raises-modify _)
      (Raises-bind _ _ (require_node-Raises excepts node_id c) (λ row. Raises-gets _))

set_membership-Raises :
    (first read : ℕ) (name node_id : String) (status : MembershipStatus)
    → Raises (not_member name node_id) (set_membership first read name node_id status)
unfolding set_membership not_member documented
set_membership-Raises first read name node_id status = Raises-then _ _ (Raises-modify _) (
    Raises-bind _ _ (require_node-Raises _ node_id refl) (λ row.
      Raises-if _ _ _ (Raises-throw _ membership_error refl)
        (Raises-then _ _ (Raises-modify _) (get_node-Raises _ read node_id refl))))

heartbeat-Raises :
    (first now read : ℕ) (node_id : String) (body : HeartbeatRequest)
    → Raises (no_node node_id) (heartbeat first now read node_id body)
unfolding heartbeat
heartbeat-Raises first now read node_id body = Raises-then _ _ (Raises-modify _) (
    Raises-bind _ _ (require_node-Raises _ node_id (node_caught node_id)) (λ row.
      Raises-then _ _ (Raises-modify _) (get_node-Raises _ read node_id (node_caught node_id))))

query_catalog-Raises :
    (now : ℕ) (query : CatalogQuery) → Raises (no_group query.group) (query_catalog now query)
unfolding query_catalog
query_catalog-Raises now query = Raises-then _ _ (Raises-modify _) (
    Raises-bind _ _ (require_group-Raises _ query.group (group_caught query.group))
      (λ row. Raises-gets _))

-- No request on one group, on one node or for the catalog ends in an uncaught exception: each is
-- answered with 200, 400 or 404, whatever the store holds.
pub serve-documented : (r : Request) (s : Store) → documented (serve r s) ≡ true
unfolding serve get_group_handler update_group_handler delete_group_handler approve_member
    deny_member heartbeat_handler get_node_handler catalog_handler
serve-documented (get_group_request read name) s = served _ _ (get_group-Raises name read) s
serve-documented (update_group_request first read name body) s =
    served _ _ (update_group-Raises name first read body) s
serve-documented (delete_group_request name) s = served _ _ (delete_group-Raises name) s
serve-documented (approve_request first read name node_id) s =
    served _ _ (set_membership-Raises first read name node_id _) s
serve-documented (deny_request first read name node_id) s =
    served _ _ (set_membership-Raises first read name node_id _) s
serve-documented (heartbeat_request first now read node_id body) s =
    served _ _ (heartbeat-Raises first now read node_id body) s
serve-documented (get_node_request read node_id) s =
    served _ _ (get_node-Raises _ read node_id (node_caught node_id)) s
serve-documented (catalog_request now query) s = served _ _ (query_catalog-Raises now query) s
