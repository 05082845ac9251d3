-- ===== src/Lib.antt =====
-- Verification of iptsd: the userspace daemon for touchscreens that send raw data to the host
-- (IPTS). Paths are those of the repository.
--
-- A HID report of the touch controller is a buffer of bytes. `ipts::Parser` (src/ipts/parser.hpp)
-- reads it through `Reader` (src/common/reader.hpp) and calls back with stylus samples, heatmaps,
-- DFT windows and metadata. Which reports carry such data follows from the HID descriptor, which
-- src/hid/parser.hpp parses. `Application` (src/core/generic) takes the callbacks: it has contacts
-- found in a heatmap (src/contacts), tracked and stabilized, and makes samples of DFT windows. The
-- daemon (src/apps/daemon) writes contacts and stylus samples to the kernel as input events.
--
-- Files and what they model:
--   Prelude, Prelude/*       numbers, words, lists, errors, methods that may throw, and `Float`: the
--                            operations of `f64` as a parameter, without laws: a theorem takes
--                            those that it needs (`IsOrdered`, `HasUnits`)
--   Reader, Reader/*         src/common/reader.hpp: `Reader.read` is `Reader::read`, and so on
--   Hid/Report, Hid/State    src/hid/report.hpp, src/hid/usage.hpp, src/hid/state.hpp
--   Hid/Parser               src/hid/parser.hpp, src/hid/spec.hpp: `parse`, and `step` for one round
--   Ipts/Data                src/ipts/data.hpp, src/ipts/protocol: records read from their bytes
--   Ipts/Parser/*            src/ipts/parser.hpp: a function of the same name for each method
--   Ipts/Device              src/ipts/device.hpp, src/ipts/descriptor.hpp,
--                            src/ipts/protocol/descriptor.hpp
--   Contacts/Contact         src/contacts/contact.hpp
--   Contacts/Convolution/*   src/contacts/detection/algorithms/convolution.hpp and optimized: each body
--                            of an unrolled routine is a table of its terms (Tables)
--   Contacts/Detection/*     src/contacts/detection/detector.hpp and its algorithms: Maximas,
--                            Overlaps, Cluster, Neutral, Gaussian and Kernels are the files of
--                            those names; Fitting has ellipse.hpp and the detector's use of the fit
--   Contacts/Finder          src/contacts/finder.hpp
--   Contacts/Tracking        src/contacts/tracking/tracker.hpp, src/contacts/tracking/distances.hpp
--   Contacts/Stability       src/contacts/stability/stabilizer.hpp
--   Contacts/Validation      src/contacts/validation/validator.hpp
--   Core/Config/*            src/core/generic/config.hpp
--   Core/Device              src/core/generic/device.hpp and its bytes
--   Core/Dft/*               src/core/generic/dft.hpp
--   Core/Application/*       src/core/generic/application.hpp
--   Core/Linux/FileRunner    src/core/linux/file-runner.hpp
--   Core/Linux/DeviceRunner  src/core/linux/device-runner.hpp
--   Core/Linux/ConfigLoader  src/core/linux/config-loader.hpp
--   Core/Linux/Runner, Ready what the runners share, and the application in them
--   Daemon/Input             src/apps/daemon/uinput-device.hpp, and the kernel's view of the events
--   Daemon/Touch/*           src/apps/daemon/touch.hpp
--   Daemon/Uinput/*          src/apps/daemon/uinput-device.hpp, and the constructors that use it
--   Daemon/Tilt, Stylus      src/apps/daemon/stylus.hpp
--   Daemon/Handlers          src/apps/daemon/daemon.hpp
--   Apps/Dump/*              src/apps/dump/dump.hpp, and the playback of what it writes
--   Tests/*                  runs, with natural numbers in place of `f64`
--
-- State is passed on: a method takes the object and returns it with what it returns or throws. The
-- parser's callbacks are a list of the calls that were made, each with the cached reports at that
-- time. The application handles them after the parser is done; if a callback or a handler throws, it
-- puts the parser back to what it was at that call and drops the calls behind it. The uinput node is
-- the list of the events written, the newest first. Exceptions are values of `Error`.
--
-- A coordinate of the stylus can be NaN, and a theorem that excludes NaN says so. The pixels of an
-- image are a function of the row and the column, so a read outside the image shows only in what a
-- search makes of the pixels there.
--
-- Loops that the data bounds run on fuel. A loop over a buffer has one more round than the buffer has
-- bytes, since each round reads a byte at least; nested HID frames share that bound with their
-- depth. The search for a new index ends at an index above those of the last frame. A loop of a 16
-- bit counter has one round more than the counter has values. That the fuel suffices is proved where
-- a loop can run out of it.
--
-- The search for a cluster marks a pixel in each call that goes on, so it has one round more than
-- the image has pixels.
--
-- A runner takes any application as a record of its methods. A signal handler sets the flag that
-- stops it; the flag is a function from the number of a read to what it finds. The run on a file has a
-- round for each byte and one more; the run on a device has as many rounds as it is given.
--
-- Not modelled: the applications that measure, draw or calibrate, and the main functions.
-- Matrices are inverted and their eigenvectors found by a library, which is a parameter, as are
-- the INI parser, the file system and the kernel. System calls and logging are left out. Writes
-- to files and to the uinput node are taken to succeed. Lengths of buffers do not wrap. The state
-- of the detector after an exception, and the old pixels of a buffer that is resized, are not
-- kept.
pub mod Prelude
pub mod Reader
pub mod Hid
pub mod Ipts
pub mod Contacts
pub mod Core
pub mod Daemon
pub mod Apps
pub mod Tests
