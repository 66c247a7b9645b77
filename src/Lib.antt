-- ===== src/Lib.antt =====
-- A model of the core of the espOS P4 cockpit: a helm panel that shows Signal K values, zones and
-- alarms by a layout that it is sent.
--
-- Deltas of the server reach the UI task one after another. A value goes to the subject of its path
-- (main/jlp/subject_registry.cpp), a meta object to the zones (main/jlp/zone_registry.cpp), the mode
-- of the day to the sun state (main/jlp/sun_state.cpp), a notification to the notifications registry
-- (main/jlp/notifications_registry.cpp), whose observers redraw the alert overlay
-- (main/jlp/alert_overlay.cpp). A layout is validated and swapped in by the layout manager
-- (main/jlp/layout/layout_manager.cpp), which also configures the alert overlay and the idle dimmer
-- (main/jlp/idle_dimmer.cpp, main/jlp/wake_overlay.cpp). Layouts come over HTTP
-- (main/jlp/net/http_api.cpp), whose handlers post the work to the UI task. A stream widget shows the
-- frames of the stream client (main/jlp/net/stream_client.cpp).
--
-- Files:
--   Prelude        shared names, Boolean tests, lists, texts, and the maps keyed by text
--   Json, Float    ArduinoJson and the target's float as interfaces
--   Notifications  NotificationsRegistry: apply, acknowledge, most_severe, snapshot, on_change; its
--                  children state what a path keeps (Views), histories of calls (History), how they
--                  come from the stream (Delivery), and what holds of them
--   Alert          AlertOverlay: rebuild, configure, the change callback, the ACK button
--   Zones          ZoneRegistry: match, description, apply_meta
--   Sun            SunState: set_mode and the delta callback
--   Dimmer         IdleDimmer and WakeOverlay
--   Layout         validate and what it calls, and the screen switcher
--   Swap           apply: the build of a layout, the swap, the settings, the store and the hook
--   Subjects       SubjectRegistry: get_or_create, garbage_collect, and the decoding of values
--   Store          the layout and the settings in NVS (main/jlp/layout/store.cpp)
--   Stream         the MJPEG client of main/jlp/net/stream_client.cpp: recv to run_connection; Client is
--                  the handover of start, stop and the task's end, in the steps of World, Task the loop of connects, Stats
--                  the statistics; Framing, Session and Pacing state what a connection does
--   Http           main/jlp/net/http_api.cpp: recv_body (Body), the hop of POST /layout to the UI task
--                  (Hop, Push), POST /screen (Screen), the bitmap and pixels of a screenshot (Bitmap),
--                  its single-flight guard (Screenshot), GET /stream_soak (Soak)
--   Audio          main/jlp/audio/chime.cpp and voice_control.cpp, with what the store keeps of them
--   Ui             components/cockpit_hal/src/ui.cpp: flush_cb, the job queue (Queue), and the
--                  timers (Timers, with their handles in Handles and what a firing does in Firing)
--   Status         main/jlp/status_overlay.cpp, and the badge of main/jlp/mic_overlay.cpp
--   App            main/app_main.cpp: the events of the stream (Link) and the layout at boot (Boot)
--   Fetch          what the panel asks the server for: main/jlp/net/zone_fetch.cpp (Seed),
--                  layout_fetch.cpp (Layout), wake_discover.cpp (Wake), sk_put.cpp and drop_here.cpp (Puts)
--   Anchor         the track of the anchor_track widget of main/jlp/widgets/widget_factory.cpp: the ring
--                  of positions (Points, Trail) and the lines that draw it (Bands); Dial is the anchor
--                  widget
--   Picture        the stream widget of the same file: its frames and its stop (Sessions), its watch timer
--                  and visibility (Watch), its touches (Touch)
--   Builders       build_widget() of the same file and the subjects that its builders ask for (Kinds)
--   Tiles          what the tiles of the same file read of their specification, and their observers (Tint)
--   Controls       the widgets of the same file that send: Button, Toggle, the backlight slider
--                  (Brightness) and the push-to-talk button (Talk)
--   Rows           the rows of the notifications widget of the same file, and their colours (Tint)
--   Theme          parse_hex_color and apply_theme of main/jlp/widgets/widget_factory.cpp
--   Tests          runs of the theorems on concrete inputs
--
-- The objects of the program are records, its operations functions from the state before to the
-- state after. What an operation makes others do is part of its result: the observers it calls, the
-- chime it plays, whether it asks for an ACK to be sent. Clocks, the answers of the network,
-- LVGL, NVS, sockets, the JPEG engine and the subscription table of espOS are arguments or interfaces.
-- Widths are written out where the program computes in 32 bits. Two tasks that share a state are a
-- list of steps in any order, or a list of what the others do between two reads of a flag.
--
-- Most loops walk a list. Those of the stream client run on fuel: `len + 1` rounds for a read of `len`
-- bytes, since each round stores a byte; a round for every five bytes that arrive and one more for a
-- connection, since a round that goes on has read a length and a frame; and one round more than there
-- are milliseconds for a pause, which takes a hundred of them at a time. The search for a free timer
-- handle has a round for each timer and one more. The search for the wake service, which goes on until
-- it succeeds, is a list of the answers that its attempts meet.
--
-- Not modelled: the geometry and the styling of LVGL objects, the logs, the text of an acknowledgement,
-- GET /hello and the microphone probes of the HTTP server, the loop of the UI task, the reading of the
-- configuration at start, the bands and ticks of the arc. The build of a widget is a parameter of Swap;
-- of it Builders has the dispatch and the subjects. The board drivers only set registers.
pub mod Prelude
pub mod Json
pub mod Float
pub mod Notifications
pub mod Zones
pub mod Sun
pub mod Dimmer
pub mod Alert
pub mod App
pub mod Anchor
pub mod Picture
pub mod Controls
pub mod Builders
pub mod Tiles
pub mod Fetch
pub mod Rows
pub mod Status
pub mod Audio
pub mod Theme
pub mod Layout
pub mod Subjects
pub mod Store
pub mod Stream
pub mod Swap
pub mod Ui
pub mod Http
pub mod Tests
