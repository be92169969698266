-- ===== src/Tests/Values.antt =====
-- JSON values with as much of a library as the rules of src/rules need: `null`, texts, arrays and
-- objects. Two values are compared as texts only.
use cc_switch_trans.Common.{
  ◌≡◌, refl, ap, Bool, true, false, Option, none, some, List, [], ◌∷◌, Text, text_eq, text_eq_iff,
  if◌then◌else◌, arith,
}
use cc_switch_trans.Rules.Json.{JsonLibrary, JsonLaws}

mutual
  pub data Value : Type 0 where
    null : Value
    text : Text → Value
    array : Items → Value
    object : Fields → Value

  pub data Items : Type 0 where
    nil : Items
    cons : Value → Items → Items

  pub data Fields : Type 0 where
    end : Fields
    field : Text → Value → Fields → Fields

abbrev to_list : Items → List Value
to_list nil = []
to_list (cons v vs) = v ∷ to_list vs

abbrev from_list : List Value → Items
from_list [] = nil
from_list (v ∷ vs) = cons v (from_list vs)

abbrev pub is_object : Value → Bool
is_object (object fs) = true
is_object _ = false

abbrev pub elements : Value → Option (List Value)
elements (array vs) = some (to_list vs)
elements _ = none

abbrev pub text_of : Value → Option Text
text_of (text t) = some t
text_of _ = none

abbrev find_field : Fields → Text → Option Value
find_field end k = none
find_field (field j v fs) k = if text_eq j k then some v else find_field fs k

abbrev pub set_field : Fields → Text → Value → Fields
set_field end k v = field k v end
set_field (field j w fs) k v = if text_eq j k then field j v fs else field j w (set_field fs k v)

abbrev drop_field : Fields → Text → Fields
drop_field end k = end
drop_field (field j v fs) k = if text_eq j k then drop_field fs k else field j v (drop_field fs k)

abbrev pub find : Value → Text → Option Value
find (object fs) k = find_field fs k
find _ k = none

abbrev pub with_member : Value → Text → Value → Value
with_member (object fs) k v = object (set_field fs k v)
with_member j k v = j

abbrev pub without_member : Value → Text → Value
without_member (object fs) k = object (drop_field fs k)
without_member j k = j

abbrev pub with_elements : Value → List Value → Value
with_elements j vs = array (from_list vs)

abbrev pub equal : Value → Value → Bool
equal (text s) (text t) = text_eq s t
equal a b = false

abbrev pub values : JsonLibrary
values = record {
  Json = Value;
  is_object = is_object;
  elements = elements;
  text_of = text_of;
  find = find;
  with_member = with_member;
  without_member = without_member;
  with_elements = with_elements;
  equal = equal;
}

to_list-from_list : (vs : List Value) → to_list (from_list vs) ≡ vs
to_list-from_list [] = refl
to_list-from_list (v ∷ vs) = ap (◌∷◌ v) (to_list-from_list vs)

find_field-set :
    (fs : Fields) (k l : Text) (v : Value)
    → find_field (set_field fs k v) l ≡ (if text_eq k l then some v else find_field fs l)
find_field-set end k l v = refl
find_field-set (field j w fs) k l v =
    ground (arith, find_field-set fs k l v, text_eq_iff j k, text_eq_iff j l, text_eq_iff k l)

find_field-drop :
    (fs : Fields) (k l : Text)
    → find_field (drop_field fs k) l ≡ (if text_eq k l then none else find_field fs l)
find_field-drop end k l = ground arith
find_field-drop (field j w fs) k l =
    ground (arith, find_field-drop fs k l, text_eq_iff j k, text_eq_iff j l, text_eq_iff k l)

find-with :
    (j v : Value) (k l : Text)
    → is_object j ≡ true
    → find (with_member j k v) l ≡ (if text_eq k l then some v else find j l)
find-with (object fs) v k l h = find_field-set fs k l v
find-with null v k l h = cc h
find-with (text t) v k l h = cc h
find-with (array vs) v k l h = cc h

find-without :
    (j : Value) (k l : Text)
    → is_object j ≡ true
    → find (without_member j k) l ≡ (if text_eq k l then none else find j l)
find-without (object fs) k l h = find_field-drop fs k l
find-without null k l h = cc h
find-without (text t) k l h = cc h
find-without (array vs) k l h = cc h

apart : (j : Value) → is_object j ≡ true → elements j ≡ none
apart (array vs) h = cc h
apart (object fs) h = refl
apart null h = refl
apart (text t) h = refl

with_member-object : (j v : Value) (k : Text) → is_object (with_member j k v) ≡ is_object j
with_member-object (object fs) v k = refl
with_member-object null v k = refl
with_member-object (text t) v k = refl
with_member-object (array vs) v k = refl

without_member-object : (j : Value) (k : Text) → is_object (without_member j k) ≡ is_object j
without_member-object (object fs) k = refl
without_member-object null k = refl
without_member-object (text t) k = refl
without_member-object (array vs) k = refl

pub values-JsonLaws : JsonLaws values
values-JsonLaws = record {
  object_apart = apart;
  with_member_object = with_member-object;
  without_member_object = without_member-object;
  find_with = λ j v old k l h f. find-with j v k l h;
  find_without = find-without;
  with_elements_elements = λ j xs ys h. ap some (to_list-from_list ys);
}
