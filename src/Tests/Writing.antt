-- ===== src/Tests/Writing.antt =====
-- Files that are written, and new pipes.
use operating_systems_work.Base.{pos, refl, true, false, List, [], ◌∷◌, arith}
use operating_systems_work.Files.{File, no_file, fd_inode}
use operating_systems_work.Files.Transfer.{filewrite}
use operating_systems_work.Files.Chunks.{FilewritePost, filewrite_lem}
use operating_systems_work.Pages.{Kmem}
use operating_systems_work.Pipe.{Pipe}
use operating_systems_work.Tests.Storage.{
  layout, fresh_disk, empty_file, empty_file-IsWritable, no_devices, letters,
}

abbrev open_file : File
open_file = record no_file { type = fd_inode; ref = 1; writable = true }

abbrev no_pipe : Pipe
no_pipe = record { buf = []; nread = 0; nwrite = 0; readopen = false; writeopen = false }

filewrite_lem_example :
    FilewritePost layout open_file 2000 letters no_pipe empty_file fresh_disk
      (filewrite no_devices layout false open_file (pos 2000) letters no_pipe empty_file fresh_disk)
filewrite_lem_example =
    filewrite_lem no_devices layout false open_file 2000 letters no_pipe empty_file fresh_disk
      (omega arith) (λ i. omega arith) refl refl empty_file-IsWritable (omega arith)

abbrev two_slots : List File
two_slots = no_file ∷ no_file ∷ []

abbrev one_page : Kmem
one_page = record { word = λ a. 0; freelist = 2148536320 }
