-- ===== src/ZWave/Network/ClassList.antt =====
-- Which command objects a node has after `updateNode`.
use huasi.Prelude.{
  ℕ, zero, suc, ◌+◌, ◌-◌, ◌≤◌, ◌≡◌, refl, ◌∙◌, ap, Option, none, some, Bool, false, ◌||◌, ◌&&◌,
  arith, Bytes, ◌==◌, if◌then◌else◌, get_or,
}
use huasi.Prelude.SortedMap.{SortedMap, nat_key, lookup, insert, lookup-insert}
use huasi.ZWave.Request.{zw_application_update}
use huasi.ZWave.Classes.{basic_class, configuration_class, manufacturer_specific_class}
use huasi.ZWave.Command.{Command, basic, config, manufacturer_specific}
use huasi.ZWave.Network.{Network, set_node, class_count, add_classes, update_node, on_request}

-- The new command object for a class that `updateNode` knows.
abbrev pub new_command : ℕ → Option Command
new_command c =
    if c == basic_class
    then some (basic 0)
    else if c == configuration_class
    then some config
    else if c == manufacturer_specific_class
    then some (manufacturer_specific (record { manufacturer = 0; product = 0; id = 0 }))
    else none

-- The code is one of this many bytes from an index on.
abbrev pub is_listed : ℕ → ℕ → ℕ → Bytes → Bool
is_listed c zero i classes = false
is_listed c (suc count) i classes = get_or classes i 0 == c || is_listed c count (i + 1) classes

abbrev pub or_else : Option Command → Option Command → Option Command
or_else none old = old
or_else (some new) old = some new

-- The body of the loop.
add_class : ℕ → SortedMap ℕ Command → SortedMap ℕ Command
add_class c commands =
    if c == basic_class
    then insert basic_class (basic 0) commands
    else if c == configuration_class
    then insert configuration_class config commands
    else if c == manufacturer_specific_class
    then insert manufacturer_specific_class
        (manufacturer_specific (record { manufacturer = 0; product = 0; id = 0 })) commands
    else commands

lookup-add_class :
    (c b : ℕ) (commands : SortedMap ℕ Command)
    → lookup c (add_class b commands)
      ≡ (if b == c then or_else (new_command c) (lookup c commands) else lookup c commands)
unfolding add_class
lookup-add_class c b commands = ground (
  arith,
  lookup-insert basic_class c (basic 0) commands,
  lookup-insert configuration_class c config commands,
  lookup-insert manufacturer_specific_class c
      (manufacturer_specific (record { manufacturer = 0; product = 0; id = 0 })) commands,
)

or_else_again :
    (new old : Option Command) (here later : Bool)
    → (if later
        then or_else new (if here then or_else new old else old)
        else if here
        then or_else new old
        else old)
      ≡ (if here || later then or_else new old else old)
or_else_again none old here later = ground arith
or_else_again (some new) old here later = ground arith

lookup-add_classes :
    (c count i : ℕ) (classes : Bytes) (commands : SortedMap ℕ Command)
    → lookup c (add_classes count i classes commands) ≡ (
        if is_listed c count i classes
        then or_else (new_command c) (lookup c commands)
        else lookup c commands)
unfolding add_classes add_class
lookup-add_classes c zero i classes commands = refl
lookup-add_classes c (suc count) i classes commands =
    let b = get_or classes i 0 in
    let L = is_listed c count (i + 1) classes in
    let new = new_command c in
    lookup-add_classes c count (i + 1) classes (add_class b commands)
    ∙ ap (λ (o : Option Command). if L then or_else new o else o) (lookup-add_class c b commands)
    ∙ or_else_again new (lookup c commands) (b == c) L

module _ (stale : ℕ) where
  -- The info of a node makes new command objects for the classes BASIC, CONFIGURATION and
  -- MANUFACTURER_SPECIFIC among the bytes that are read as class codes; a command object of any
  -- other class stays, and so does every other node. The bytes that are read are as many as there are
  -- class codes, from the start of the data on, which is seven bytes too early.
  pub on_request_node_info :
      (bytes : Bytes) (size c node_id : ℕ) (n : Network)
      → get_or bytes 0 0 ≡ zw_application_update
      → 7 ≤ size
      → let n' = (on_request stale bytes size n).0 in
        let old = lookup c (n.nodes node_id).commands in
        lookup c (n'.nodes node_id).commands ≡ (
          if node_id == get_or bytes 2 0 && is_listed c (class_count (size - 7) 7 bytes) 0 bytes
          then or_else (new_command c) old
          else old)
  unfolding on_request update_node set_node
  on_request_node_info bytes size c node_id n kind long =
      let id = get_or bytes 2 0 in
      let count = class_count (size - 7) 7 bytes in
      ground (
        arith,
        lookup-add_classes c count 0 bytes (n.nodes id).commands,
        lookup-add_classes c count 0 bytes (n.nodes node_id).commands,
      )
