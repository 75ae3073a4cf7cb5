-- ===== src/Table.antt =====
-- Go's maps keyed by a text, as association lists: what the program reads of a map is `lookup`,
-- and a `range` goes through the entries in the list's order, one of those that Go may take.
mod Rebuild
pub use Rebuild.{fill-IsKeyed, lookup-fill, lookup-fill-sort_by, lookup-fill-values}
unfoldable pub use Rebuild.{fill}
mod Defs
pub use Defs.{
  Table, lookup-insert, lookup-remove, lookup-remove_self, lookup-remove_if, lookup-insert_self,
  IsKeyed, insert-IsKeyed, remove-IsKeyed, remove_if-IsKeyed, unless, unless-eq-some, key-lookup,
  All-values, Memᴰ-values,
}
unfoldable pub use Defs.{lookup, insert, remove, remove_if, values, keys}
