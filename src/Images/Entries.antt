-- ===== src/Images/Entries.antt =====
-- internal/tftp/imagestore.go: the image directory as a list of entries.
use unwedge.Base.{◌≡◌, ◌≢◌, refl, Bytes, true, false, some, [], ◌∷◌, eqb_iff, eqb_refl, arith}
use unwedge.Images.{Entry, Directory, lookup_entry, remove_entry, put_entry, exists_entry}

pub lookup_entry-put_same :
    (f : Entry) (d : Directory) → lookup_entry f.name (put_entry f d) ≡ some f
unfolding lookup_entry put_entry
lookup_entry-put_same f [] = rw (eqb_refl f.name) refl
lookup_entry-put_same f (e ∷ d) = ground (arith, eqb_refl f.name, lookup_entry-put_same f d)

pub lookup_entry-put_other :
    (f : Entry) (n : Bytes) (d : Directory)
    → n ≢ f.name
    → lookup_entry n (put_entry f d) ≡ lookup_entry n d
unfolding lookup_entry put_entry
lookup_entry-put_other f n [] h = ground (arith, eqb_iff f.name n)
lookup_entry-put_other f n (e ∷ d) h = ground (
  arith,
  eqb_iff f.name n,
  eqb_iff e.name n,
  eqb_iff e.name f.name,
  lookup_entry-put_other f n d h,
)

pub remove_entry-put_new :
    (f : Entry) (d : Directory)
    → exists_entry f.name d ≡ false
    → remove_entry f.name (put_entry f d) ≡ d
unfolding exists_entry lookup_entry put_entry remove_entry
remove_entry-put_new f [] h = rw (eqb_refl f.name) refl
remove_entry-put_new f (e ∷ d) h = ground (arith, remove_entry-put_new f d)

pub exists_entry-put_same : (f : Entry) (d : Directory) → exists_entry f.name (put_entry f d) ≡ true
unfolding exists_entry
exists_entry-put_same f d = rw (exists_entry, lookup_entry-put_same f d) refl
