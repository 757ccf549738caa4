-- ===== src/Broker/Changes.antt =====
-- shared-worker.ts, `isChangeSet`: the shape that a change set of a tab must have before the
-- broker relays it.
use remelon_db.Prelude.{
  String, Bool, true, false, ◌&&◌, ◌||◌, List, [], ◌∷◌, ◌==◌, all, if◌then◌else◌,
}
use remelon_db.Broker.{
  Value, undefined, string, array, object, Values, nil, cons, Fields, empty, field,
}

abbrev pub items : Values → List Value
items nil = []
items (cons v vs) = v ∷ items vs

-- Object.values(value)
abbrev pub field_values : Fields → List Value
field_values empty = []
field_values (field name v rest) = v ∷ field_values rest

-- value[name]
abbrev pub member_at : String → Fields → Value
member_at name empty = undefined
member_at name (field n v rest) = if n == name then v else member_at name rest

abbrev pub is_string : Value → Bool
is_string (string s) = true
is_string v = false

abbrev pub is_change_type : Value → Bool
is_change_type (string s) = s == "created" || (s == "updated" || s == "destroyed")
is_change_type v = false

-- an array is an object whose members are its items, and none of them is called `id`
abbrev pub is_record_like : Value → Bool
is_record_like (object fields) = is_string (member_at "id" fields)
is_record_like v = false

abbrev pub is_change : Value → Bool
is_change (object fields) =
    is_change_type (member_at "type" fields) && is_record_like (member_at "record" fields)
is_change v = false

abbrev pub is_change_list : Value → Bool
is_change_list (array changes) = all is_change (items changes)
is_change_list v = false

unfoldable pub is_change_set : Value → Bool
is_change_set (object tables) = all is_change_list (field_values tables)
is_change_set v = false
