-- ===== src/Links.antt =====
-- Doubly linked elements, as src/list.c and src/page.c have them: the two links of every element,
-- by its address. Address 0 is NULL.
pub mod Linked
use pios_private.Base.{ℕ}
use pios_private.Mem.{write}

pub record Links : Type 0 where
  pub next : ℕ → ℕ
  pub prev : ℕ → ℕ

-- `a->next = v` and `a->prev = v`
unfoldable pub set_next : Links → ℕ → ℕ → Links
set_next h a v = record h { next = write h.next a v }

unfoldable pub set_prev : Links → ℕ → ℕ → Links
set_prev h a v = record h { prev = write h.prev a v }
