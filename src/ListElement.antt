-- ===== src/ListElement.antt =====
-- `listAdd` and `listRemove` of src/list.c.
pub mod Laws
mod Examples
use pios_private.Base.{ℕ, Option, none, some, ◌==◌, if◌then◌else◌}
use pios_private.Links.{Links, set_next, set_prev}

-- The head pointer is used as an element of which only `next` exists.
unfoldable pub list_add : Links → (head new_element : ℕ) → Links
list_add h head new_element =
    let h₁ = set_next h new_element (h.next head) in
    let h₂ = set_prev h₁ new_element head in
    let h₃ = set_next h₂ head new_element in
    if h₃.next new_element == 0 then h₃ else set_prev h₃ (h₃.next new_element) new_element

-- The element's neighbour behind it, if there is one, gets its `prev`.
unfoldable pub relink_next : Links → ℕ → Links
relink_next h b = if h.next b == 0 then h else set_prev h (h.next b) (h.prev b)

-- `none` if `b->prev` is NULL, which the source dereferences.
unfoldable pub list_remove : Links → ℕ → Option Links
list_remove h b =
    let h₁ = relink_next h b in
    let h₂ = set_next h₁ (h₁.prev b) (h₁.next b) in
    if h₁.prev b == 0 then none else some (set_prev (set_next h₂ b 0) b 0)
