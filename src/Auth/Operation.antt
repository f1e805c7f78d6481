-- ===== src/Auth/Operation.antt =====
-- picomq/pico-auth/src/scope.rs: operations, the resources they touch, rights and audiences.
use picomq.Prelude.{
  ℕ, ◌≡◌, Bool, true, false, ◌||◌, Option, none, some, List, [], ◌∷◌, Ord, ord_by_rank,
  if◌then◌else◌, get_elem?, arith,
}

pub data Operation : Type 0 where
  read head list create append trim close delete issue_token revoke_token list_tokens consume :
      Operation
  describe_group delete_group cluster_read node_read transfer_stream update_node_slots : Operation

pub data Resource : Type 0 where
  stream token group : Resource

unfoldable pub all_operations : List Operation
all_operations =
    read ∷ head ∷ list ∷ create ∷ append ∷ trim ∷ close ∷ delete ∷ issue_token ∷ revoke_token
    ∷ list_tokens ∷ consume ∷ describe_group ∷ delete_group ∷ cluster_read ∷ node_read
    ∷ transfer_stream ∷ update_node_slots ∷ []

unfoldable pub resource : Operation → Option Resource
resource read = some stream
resource head = some stream
resource list = some stream
resource create = some stream
resource append = some stream
resource trim = some stream
resource close = some stream
resource delete = some stream
resource issue_token = some token
resource revoke_token = some token
resource list_tokens = some token
resource consume = some group
resource describe_group = some group
resource delete_group = some group
resource _ = none

unfoldable pub writes : Operation → Bool
writes create = true
writes append = true
writes trim = true
writes close = true
writes delete = true
writes issue_token = true
writes revoke_token = true
writes delete_group = true
writes transfer_stream = true
writes update_node_slots = true
writes _ = false

unfoldable pub describes : Operation → Bool
describes head = true
describes describe_group = true
describes _ = false

-- The derived order and equality go by the position in the declaration.
abbrev pub position : Operation → ℕ
position read = 0
position head = 1
position list = 2
position create = 3
position append = 4
position trim = 5
position close = 6
position delete = 7
position issue_token = 8
position revoke_token = 9
position list_tokens = 10
position consume = 11
position describe_group = 12
position delete_group = 13
position cluster_read = 14
position node_read = 15
position transfer_stream = 16
position update_node_slots = 17

position-operations : (a : Operation) → get_elem? all_operations (position a) ≡ some a
unfolding all_operations
position-operations a = ground arith

pub eq_of_position : (a b : Operation) → position a ≡ position b → a ≡ b
eq_of_position a b h = cc (position-operations a, position-operations b, h)

instance abbrev pub operation_ord : Ord Operation
operation_ord = ord_by_rank position eq_of_position

abbrev pub same_resource : Option Resource → Option Resource → Bool
same_resource (some stream) (some stream) = true
same_resource (some token) (some token) = true
same_resource (some group) (some group) = true
same_resource none none = true
same_resource _ _ = false

pub record ReadWrite : Type 0 where
  pub read : Bool
  pub write : Bool

unfoldable pub rw_allows : ReadWrite → Bool → Bool
rw_allows rw write = if write then rw.write else rw.read

unfoldable pub rw_any : ReadWrite → Bool
rw_any rw = rw.read || rw.write

pub record Access : Type 0 where
  pub stream : ReadWrite
  pub tokens : ReadWrite
  pub group : ReadWrite
  pub admin : ReadWrite

unfoldable pub of : Access → Option Resource → ReadWrite
of access (some stream) = access.stream
of access (some token) = access.tokens
of access (some group) = access.group
of access none = access.admin

-- Which listener or protocol a token may call.
pub data Audience : Type 0 where
  pico durable_streams admin kafka : Audience

abbrev pub audience_position : Audience → ℕ
audience_position pico = 0
audience_position durable_streams = 1
audience_position admin = 2
audience_position kafka = 3

pub eq_of_audience_position : (a b : Audience) → audience_position a ≡ audience_position b → a ≡ b
eq_of_audience_position a b h = ground arith

instance abbrev pub audience_ord : Ord Audience
audience_ord = ord_by_rank audience_position eq_of_audience_position
