-- ===== src/Store/Releases/Tests.antt =====
-- Runs of the releases of internal/store/releases.go.
use mathlib.Core.List.{Memᴰ}
use classing_backend.Base.{◌≡◌, refl, ◌∷◌, [], string_eq}
use classing_backend.Base.Int.{pos}
use classing_backend.Base.Order.{order_by, insert_by}
use classing_backend.Base.Table.{count_where}
use classing_backend.Base.Text.{trim_space, to_upper}
use classing_backend.Store.Accounts.{audit_in_tx}
use classing_backend.Store.Core.{ok, err, not_found, conflict, normalize_db_error}
use classing_backend.Store.ContentRows.{AppRelease, Contents}
use classing_backend.Store.Events.{audit_contents}
use classing_backend.Store.Fixtures.{contents, audit}
use classing_backend.Store.Releases.{
  create_release, release, publish_release, delete_release, latest_release, normalize_channel,
  published,
}
use classing_backend.Store.Releases.Latest.{supersedes, latest-eq-ok}

abbrev draft : AppRelease
draft = record {
  id = "r";
  platform = "ANDROID_MOBILE";
  channel = "STABLE";
  version_code = 7;
  version_name = "1.7";
  min_supported_version_code = pos 0;
  title = "Spring";
  changelog = "";
  mandatory = 0;
  status = "DRAFT";
  artifact_file_name = "app.apk";
  artifact_storage_name = "s";
  artifact_size = 1;
  artifact_sha256 = "hash";
  artifact_mime_type = "";
  created_by = "a";
  published_at = 0;
  created_at = 5;
  updated_at = 5;
}

abbrev drafted : Contents
drafted = record contents { releases = draft ∷ [] }

abbrev offered : Contents
offered = record contents { releases = published 9 draft ∷ [] }

creates :
    create_release 5
      (record draft { channel = ""; title = " Spring"; platform = "android_mobile" })
      contents
    ≡ (ok draft, drafted)
unfolding create_release normalize_channel trim_space to_upper
creates = refl

same_version : (create_release 6 (record draft { id = "r2" }) drafted).0 ≡ err conflict
unfolding create_release normalize_channel trim_space to_upper normalize_db_error
same_version = refl

publishes : publish_release 9 "r" drafted ≡ (ok (published 9 draft), offered)
unfolding publish_release release
publishes = refl

not_offered : latest_release "android_mobile" "" drafted ≡ err not_found
unfolding latest_release normalize_channel trim_space to_upper order_by insert_by normalize_db_error
not_offered = refl

offers : latest_release "android_mobile" "" offered ≡ ok (published 9 draft)
unfolding latest_release normalize_channel trim_space to_upper order_by insert_by
offers = refl

latest-eq-ok_example :
    Memᴰ (published 9 draft) offered.releases
    × ((published 9 draft).platform ≡ to_upper (trim_space "android_mobile"))
    × ((published 9 draft).channel ≡ normalize_channel "")
    × ((published 9 draft).status ≡ "PUBLISHED")
    × (count_where
          (supersedes
            (to_upper (trim_space "android_mobile"))
            (normalize_channel "")
            (published 9 draft))
          offered.releases
        ≡ 0)
latest-eq-ok_example = latest-eq-ok "android_mobile" "" offered (published 9 draft) offers

wanted : to_upper (trim_space "android_mobile") ≡ "ANDROID_MOBILE"
unfolding to_upper trim_space
wanted = refl

stable : normalize_channel "" ≡ "STABLE"
unfolding normalize_channel to_upper trim_space
stable = refl

deletes : (delete_release 9 "u" "r" audit offered).1.releases ≡ []
unfolding delete_release audit_contents audit_in_tx
deletes = refl
