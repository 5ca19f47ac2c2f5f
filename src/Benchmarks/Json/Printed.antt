-- ===== src/Benchmarks/Json/Printed.antt =====
-- The calls of the writer print the tree.
use thunder_bolt_ht.Base.{
  ℕ, suc, ◌≡◌, refl, sym, ap, ◌∙◌, Bool, true, false, ◌||◌, if◌then◌else◌, List, [], ◌∷◌, ◌++◌,
  append_assoc, append-nil, length,
}
use thunder_bolt_ht.Benchmarks.Json.{
  JsonWriter, ContainerState, put, quoted, newline_indent, separate, separate_in, write_string,
  write_key, open_container, close_container, close_in, begin_object, begin_object_field,
  begin_array, end_object, end_array, string_field, raw_field, raw_value,
}
use thunder_bolt_ht.Benchmarks.Json.Document.{
  Item, a_string, a_raw, an_element, an_object, an_object_field, an_array, Items, no_more,
  then_more, write_item, write_items, is_some_item, line, bracketed, keyed, item_text, items_text,
}

-- The writer in a container, with the containers around it.
abbrev inside : List ℕ → Bool → Bool → List ContainerState → JsonWriter
inside out any_written is_array below = record {
  out = out;
  stack = record { any_written = any_written; is_array = is_array } ∷ below;
}

-- What comes before an item.
abbrev lead : ℕ → Bool → List ℕ
lead depth any_written = (if any_written then b',' ∷ [] else []) ++ line depth

separate-inside :
    (out : List ℕ) (a r : Bool) (below : List ContainerState)
    → separate (inside out a r below) ≡ inside (out ++ lead (suc (length below)) a) true r below
unfolding separate separate_in newline_indent put line
separate-inside out true r below = ap (λ o. inside o true r below) (append_assoc out (b',' ∷ []) _)
separate-inside out false r below = refl

write_key-inside :
    (out key : List ℕ) (a r : Bool) (below : List ContainerState)
    → write_key (inside out a r below) key
      ≡ inside (out ++ lead (suc (length below)) a ++ quoted key ++ b':' ∷ b' ' ∷ []) true r below
unfolding write_key write_string put
write_key-inside out key a r below =
    ap (λ w. put (write_string w key) (b':' ∷ b' ' ∷ [])) (separate-inside out a r below)
    ∙ ap (λ o. inside o true r below) (simp append_assoc)

close_container-inside :
    (out : List ℕ) (s x : Bool) (top : ContainerState) (below : List ContainerState) (bracket : ℕ)
    → close_container (inside out s x (top ∷ below)) bracket ≡ record {
      out = out ++ (if s then line (suc (length below)) else []) ++ bracket ∷ [];
      stack = top ∷ below;
    }
unfolding close_container close_in newline_indent put line
close_container-inside out true x top below bracket = refl
close_container-inside out false x top below bracket =
    ap (λ o. record { out = o; stack = top ∷ below }) (simp append_assoc)

mutual
  unfolding write_item item_text string_field raw_field raw_value begin_object begin_object_field
      begin_array end_object end_array open_container put write_string keyed bracketed write_items
      items_text

  write_item-inside :
      (out : List ℕ) (a r : Bool) (below : List ContainerState) (item : Item)
      → write_item (inside out a r below) item
        ≡ inside
            (out ++ lead (suc (length below)) a ++ item_text (suc (length below)) item)
            true
            r
            below
  write_item-inside out a r below (a_string key value) =
      ap (λ w. write_string w value) (write_key-inside out key a r below)
      ∙ ap (λ o. inside o true r below) (simp append_assoc)
  write_item-inside out a r below (a_raw key text) =
      ap (λ w. put w text) (write_key-inside out key a r below)
      ∙ ap (λ o. inside o true r below) (simp append_assoc)
  write_item-inside out a r below (an_element text) =
      ap (λ w. put w text) (separate-inside out a r below)
      ∙ ap (λ o. inside o true r below) (simp append_assoc)
  write_item-inside out a r below (an_object items) =
      ap (λ w. end_object (write_items (open_container w b'{' false) items))
        (separate-inside out a r below)
      ∙ ap end_object (write_items-inside _ false false _ items)
      ∙ close_container-inside _ (is_some_item items) false _ below b'}'
      ∙ ap (λ o. inside o true r below) (simp append_assoc)
  write_item-inside out a r below (an_object_field key items) =
      ap (λ w. end_object (write_items (open_container w b'{' false) items))
        (write_key-inside out key a r below)
      ∙ ap end_object (write_items-inside _ false false _ items)
      ∙ close_container-inside _ (is_some_item items) false _ below b'}'
      ∙ ap (λ o. inside o true r below) (simp append_assoc)
  write_item-inside out a r below (an_array key items) =
      ap (λ w. end_array (write_items (open_container w b'[' true) items))
        (write_key-inside out key a r below)
      ∙ ap end_array (write_items-inside _ false true _ items)
      ∙ close_container-inside _ (is_some_item items) true _ below b']'
      ∙ ap (λ o. inside o true r below) (simp append_assoc)

  write_items-inside :
      (out : List ℕ) (a r : Bool) (below : List ContainerState) (items : Items)
      → write_items (inside out a r below) items
        ≡ inside (out ++ items_text (suc (length below)) a items) (a || is_some_item items) r below
  write_items-inside out true r below no_more =
      ap (λ o. inside o true r below) (sym (append-nil out))
  write_items-inside out false r below no_more =
      ap (λ o. inside o false r below) (sym (append-nil out))
  write_items-inside out true r below (then_more item items) =
      ap (λ w. write_items w items) (write_item-inside out true r below item)
      ∙ write_items-inside _ true r below items
      ∙ ap (λ o. inside o true r below) (simp append_assoc)
  write_items-inside out false r below (then_more item items) =
      ap (λ w. write_items w items) (write_item-inside out false r below item)
      ∙ write_items-inside _ true r below items
      ∙ ap (λ o. inside o true r below) (simp append_assoc)

close_container-outermost :
    (out : List ℕ) (s x : Bool) (bracket : ℕ)
    → close_container (inside out s x []) bracket
      ≡ record { out = out ++ (if s then line 0 else []) ++ bracket ∷ []; stack = [] }
unfolding close_container close_in newline_indent put line
close_container-outermost out true x bracket = refl
close_container-outermost out false x bracket =
    ap (λ o. record { out = o; stack = [] }) (simp append_assoc)

-- The calls that write an object into a new writer, with any items nested in it, write its text: each
-- item on a line of its own, indented by its depth, with a comma between it and the one before, and the
-- brackets of each container matched. The writer has no container open behind them.
pub write_item-item_text :
    (items : Items)
    → write_item (record { out = []; stack = [] }) (an_object items)
      ≡ record { out = item_text 0 (an_object items); stack = [] }
unfolding write_item item_text begin_object end_object open_container separate separate_in bracketed
write_item-item_text items =
    ap end_object (write_items-inside (b'{' ∷ []) false false [] items)
    ∙ close_container-outermost _ (is_some_item items) false b'}'
    ∙ ap (λ o. record { out = o; stack = [] }) (simp append_assoc)
