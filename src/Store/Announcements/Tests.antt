-- ===== src/Store/Announcements/Tests.antt =====
-- Runs of the announcements of internal/store/releases.go.
use classing_backend.Base.{◌≡◌, refl, ◌∷◌, [], string_eq}
use classing_backend.Base.Int.{pos, negsuc}
use classing_backend.Base.Order.{order_by, insert_by}
use classing_backend.Base.Text.{trim_space, to_upper}
use classing_backend.Store.Core.{ok, err, invalid}
use classing_backend.Store.ContentRows.{Announcement, Contents}
use classing_backend.Store.Fixtures.{contents}
use classing_backend.Store.Announcements.{
  announcement, create_announcement, update_announcement, delete_announcement, public_announcements,
}

abbrev notice : Announcement
notice = record {
  id = "n";
  title = "Exams";
  content = "Next week";
  platform = "";
  priority = pos 1;
  active = 1;
  publish_at = 5;
  expires_at = 0;
  created_by = "a";
  created_at = 5;
  updated_at = 5;
}

abbrev noticed : Contents
noticed = record contents { announcements = notice ∷ [] }

creates :
    create_announcement 5 "n"
      (record notice { id = ""; title = " Exams "; active = 7; publish_at = 0 })
      contents
    ≡ (ok notice, noticed)
unfolding create_announcement trim_space to_upper
creates = refl

shows :
    public_announcements 9 "android_wear" 5 (record contents {
      announcements =
          record notice { id = "low"; priority = negsuc 0 }
          ∷ notice
          ∷ record notice { id = "phone"; platform = "ANDROID_MOBILE" }
          ∷ record notice { id = "gone"; expires_at = 9 }
          ∷ [];
    })
    ≡ ok (notice ∷ record notice { id = "low"; priority = negsuc 0 } ∷ [])
unfolding public_announcements trim_space to_upper order_by insert_by
shows = refl

updates :
    (update_announcement 9 (record notice { content = "Today" }) noticed).0
    ≡ ok (record notice { content = "Today"; updated_at = 9 })
unfolding update_announcement announcement trim_space to_upper
updates = refl

no_content : (update_announcement 9 (record notice { content = " " }) noticed).0 ≡ err invalid
unfolding update_announcement trim_space to_upper
no_content = refl

deletes : (delete_announcement "n" noticed).1 ≡ contents
unfolding delete_announcement
deletes = refl
