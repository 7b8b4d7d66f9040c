-- ===== src/Os/Commands/Traversal/Steps.antt =====
-- Every command of back/src/modules/os/os.service.ts, walked through.
use orbix_hub.Base.{ℕ, List, [], ◌∷◌, All}
use orbix_hub.Os.Store.{Workshop, Request}
use orbix_hub.Base.Keeps.{Keeps-then, Keeps-pure}
use orbix_hub.Os.Commands.{
  Command, creating, editing, adding, changing, removing, noting, moving, declaring, deleting, step,
  run,
}
use orbix_hub.Os.Commands.Traversal.{Primitives}
use orbix_hub.Os.Commands.Traversal.Content.{
  add_item-Keeps, update_item-Keeps, delete_item-Keeps, update_order-Keeps, create_note-Keeps,
}
use orbix_hub.Os.Commands.Traversal.Service.{
  create_order-Keeps, change_order_status-Keeps, mark_fiado-Keeps, delete_order-Keeps,
}

-- Whoever commits between the reading of a number and the insert keeps it too.
abbrev pub Honest : (Workshop → Type 0) → Command → Type 0
Honest P (creating rivals dto h) = (k : ℕ) (db : Workshop) → P db → P (rivals k db)
Honest P (editing id dto) = Unit
Honest P (adding id dto) = Unit
Honest P (changing id item dto) = Unit
Honest P (removing id item) = Unit
Honest P (noting id message visible) = Unit
Honest P (moving id to) = Unit
Honest P (declaring id) = Unit
Honest P (deleting id) = Unit

module _ {P : Workshop → Type 0} (p : Primitives P) where
  -- What the single writes keep, every command keeps.
  pub step-keeps :
      (req : Request) (c : Command) (db : Workshop) → Honest P c → P db → P (step req c db).1
  unfolding step
  step-keeps req (creating rivals dto h) db o i =
      (Keeps-then _ _ (create_order-Keeps p rivals req dto h o) (Keeps-pure tt)).at db i
  step-keeps req (editing id dto) db o i = (update_order-Keeps p req id dto).at db i
  step-keeps req (adding id dto) db o i = (add_item-Keeps p req id dto).at db i
  step-keeps req (changing id item dto) db o i = (update_item-Keeps p id item dto).at db i
  step-keeps req (removing id item) db o i = (delete_item-Keeps p req id item).at db i
  step-keeps req (noting id message visible) db o i =
      (create_note-Keeps p req id message visible).at db i
  step-keeps req (moving id to) db o i = (change_order_status-Keeps p req id to).at db i
  step-keeps req (declaring id) db o i = (mark_fiado-Keeps p req id).at db i
  step-keeps req (deleting id) db o i = (delete_order-Keeps p req id).at db i

  pub run-keeps :
      (rs : List (Request × Command)) (db : Workshop)
      → All (λ r. Honest P r.1) rs
      → P db
      → P (run rs db)
  unfolding run
  run-keeps [] db o i = i
  run-keeps ((req, c) ∷ rest) db (o, os) i =
      run-keeps rest (step req c db).1 os (step-keeps req c db o i)
