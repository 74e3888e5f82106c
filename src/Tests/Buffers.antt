-- ===== src/Tests/Buffers.antt =====
-- Runs of the buffer cache of ass5/final_repo/bio.c.
use operating_systems_work.Base.{refl, inl, inr, true, false, List, [], ◌∷◌}
use operating_systems_work.Cache.{Buf, bget}
use operating_systems_work.Cache.Unique.{Unique, OnSome, Unique-bget}

abbrev block_two : Buf
block_two = record { dev = 1; blockno = 2; valid = true; dirty = false; refcnt = 1 }

abbrev dirty_five : Buf
dirty_five = record { dev = 1; blockno = 5; valid = true; dirty = true; refcnt = 0 }

abbrev unused_buf : Buf
unused_buf = record { dev = 0; blockno = 0; valid = false; dirty = false; refcnt = 0 }

abbrev buffers : List Buf
buffers = dirty_five ∷ block_two ∷ unused_buf ∷ unused_buf ∷ []

buffers-Unique : Unique buffers
buffers-Unique =
    (inr (refl, (refl, (refl, tt))), (inr (refl, (refl, tt)), (inl refl, (inl refl, tt))))

Unique-bget_example : OnSome Unique (bget 1 7 buffers)
Unique-bget_example = Unique-bget 1 7 buffers buffers-Unique
