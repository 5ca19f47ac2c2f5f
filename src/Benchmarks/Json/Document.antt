-- ===== src/Benchmarks/Json/Document.antt =====
-- A document as a tree, the calls that write it, and its text as a function of the tree.
use thunder_bolt_ht.Base.{ℕ, suc, Bool, true, false, if◌then◌else◌, List, [], ◌∷◌, ◌++◌}
use thunder_bolt_ht.Benchmarks.Json.{
  JsonWriter, quoted, indent, begin_object, begin_object_field, begin_array, end_object, end_array,
  string_field, raw_field, raw_value,
}

-- What a container holds: an item for each call or pair of calls of the writer, with its key.
mutual
  pub data Item : Type 0 where
    a_string : List ℕ → List ℕ → Item
    a_raw : List ℕ → List ℕ → Item
    an_element : List ℕ → Item
    an_object : Items → Item
    an_object_field : List ℕ → Items → Item
    an_array : List ℕ → Items → Item

  pub data Items : Type 0 where
    no_more : Items
    then_more : Item → Items → Items

unfoldable mutual
  pub write_item : JsonWriter → Item → JsonWriter
  write_item w (a_string key value) = string_field w key value
  write_item w (a_raw key text) = raw_field w key text
  write_item w (an_element text) = raw_value w text
  write_item w (an_object items) = end_object (write_items (begin_object w) items)
  write_item w (an_object_field key items) =
      end_object (write_items (begin_object_field w key) items)
  write_item w (an_array key items) = end_array (write_items (begin_array w key) items)

  pub write_items : JsonWriter → Items → JsonWriter
  write_items w no_more = w
  write_items w (then_more item items) = write_items (write_item w item) items

abbrev pub is_some_item : Items → Bool
is_some_item no_more = false
is_some_item (then_more item items) = true

-- A new line at a depth.
unfoldable pub line : ℕ → List ℕ
line depth = 10 ∷ indent depth

-- A container at a depth, from its brackets and its items' text.
unfoldable pub bracketed : ℕ → ℕ → ℕ → Bool → List ℕ → List ℕ
bracketed depth opening closing some_item text =
    opening ∷ text ++ (if some_item then line depth else []) ++ closing ∷ []

unfoldable pub keyed : List ℕ → List ℕ → List ℕ
keyed key text = quoted key ++ (b':' ∷ b' ' ∷ []) ++ text

unfoldable mutual
  -- An item in a container that is open at depth `depth`.
  pub item_text : ℕ → Item → List ℕ
  item_text depth (a_string key value) = keyed key (quoted value)
  item_text depth (a_raw key text) = keyed key text
  item_text depth (an_element text) = text
  item_text depth (an_object items) =
      bracketed depth b'{' b'}' (is_some_item items) (items_text (suc depth) false items)
  item_text depth (an_object_field key items) =
      keyed key
        (bracketed depth b'{' b'}' (is_some_item items) (items_text (suc depth) false items))
  item_text depth (an_array key items) =
      keyed key
        (bracketed depth b'[' b']' (is_some_item items) (items_text (suc depth) false items))

  -- Items on lines of their own, with a comma before each but the container's first.
  pub items_text : ℕ → Bool → Items → List ℕ
  items_text depth any_written no_more = []
  items_text depth any_written (then_more item items) =
      (if any_written then b',' ∷ [] else [])
      ++ line depth
      ++ item_text depth item
      ++ items_text depth true items
