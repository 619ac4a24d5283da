-- ===== src/Memory.antt =====
-- The heap blocks and slots that the functions allocate and free, read off a history.
pub mod Slots
pub mod Ledger
pub mod Sends
pub mod Takes
pub mod Conservation
pub mod Endpoints
pub mod Created
pub mod Steps
use https_github_com_nightdu.Base.{List, [], ◌∷◌}
use https_github_com_nightdu.Platform.{
  Ptr, Endpoint, Call, allocated, freed, ringbuf_created, History,
}

abbrev add_allocated : Call → List Ptr → List Ptr
add_allocated (allocated block p) ps = p ∷ ps
add_allocated (freed release p) ps = ps
add_allocated _ ps = ps

abbrev add_freed : Call → List Ptr → List Ptr
add_freed (freed release p) ps = p ∷ ps
add_freed (allocated block p) ps = ps
add_freed _ ps = ps

-- The blocks handed out, newest first, and those given back.
abbrev pub allocations : History → List Ptr
allocations [] = []
allocations (c ∷ h) = add_allocated c (allocations h)

abbrev pub releases : History → List Ptr
releases [] = []
releases (c ∷ h) = add_freed c (releases h)

abbrev add_ring : Call → List Ptr → List Ptr
add_ring (ringbuf_created size depth p) ps = p ∷ ps
add_ring _ ps = ps

-- The ring buffer allocators that were created, newest first.
abbrev pub rings : History → List Ptr
rings [] = []
rings (c ∷ h) = add_ring c (rings h)

-- The blocks that a publisher or subscription consists of.
abbrev pub blocks : Endpoint → List Ptr
blocks e = e.topic_name.address ∷ e.info.address ∷ e.address ∷ []
