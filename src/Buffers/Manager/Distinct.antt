-- ===== src/Buffers/Manager/Distinct.antt =====
-- core/buffer_manager.cpp: which buffers are open after an operation.
use vxcore.Buffers.Manager.Content.{close_buffers_for_notebook, close_buffer, close_all}
use vxcore.Prelude.Assoc.{lookup-without, Assoc, lookup, DistinctKeys}
use vxcore.Buffers.Content.{notebook_id, Buffer}
use vxcore.Buffers.Manager.{Manager, ids_of_notebook}
use vxcore.Prelude.{
  some, refl, eq_iff, [], arith, ◌∷◌, str_eq, none, if◌then◌else◌, ◌≡◌, false, List, Bool, contains,
  Option, String,
}
use vxcore.Buffers.Disk.{Files}

belongs : String → Option Buffer → Bool
belongs nb none = false
belongs nb (some b) = str_eq (notebook_id b) nb

module _ {D : Type 0} (f : Files D) where
  lookup-close_buffer :
      (id j : String) (m : Manager D)
      → lookup j (close_buffer f id m).1.buffers
        ≡ (if str_eq id j then none else lookup j m.buffers)
  unfolding close_buffer
  lookup-close_buffer id j m = ground (arith, lookup-without id j m.buffers, eq_iff id j)

  lookup-close_all :
      (ids : List String) (j : String) (m : Manager D)
      → lookup j (close_all f ids m).buffers ≡ (if contains j ids then none else lookup j m.buffers)
  unfolding close_all contains
  lookup-close_all [] j m = refl
  lookup-close_all (id ∷ ids) j m =
      ground (arith, lookup-close_all ids j (close_buffer f id m).1, lookup-close_buffer id j m)

  contains-ids_of_notebook :
      (nb j : String) (bs : Assoc Buffer)
      → DistinctKeys bs
      → contains j (ids_of_notebook nb bs) ≡ belongs nb (lookup j bs)
  unfolding ids_of_notebook contains lookup belongs
  contains-ids_of_notebook nb j [] d = refl
  contains-ids_of_notebook nb j ((i, b) ∷ bs) d =
      ground (arith, contains-ids_of_notebook nb j bs, eq_iff i j)

  -- Closing the buffers of a notebook closes exactly the buffers of that notebook, where no id stands
  -- for two buffers.
  lookup-close_buffers_for_notebook :
      (nb j : String) (m : Manager D)
      → DistinctKeys m.buffers
      → lookup j (close_buffers_for_notebook f nb m).buffers ≡ (elim (lookup j m.buffers) [
        | none ↦ none
        | some b ↦ if str_eq (notebook_id b) nb then none else some b
      ])
  unfolding close_buffers_for_notebook belongs
  lookup-close_buffers_for_notebook nb j m d = ground (
    arith,
    lookup-close_all (ids_of_notebook nb m.buffers) j m,
    contains-ids_of_notebook nb j m.buffers,
  )
